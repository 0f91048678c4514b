-- ===== src/Base/Sort.antt =====
-- `sort.Slice` by a strict order. The program sorts by keys that no two elements share, for which
-- the sorted list is unique; insertion is the algorithm here.
use mathlib.Core.Path.{◌≡◌, refl, ◌∙◌}
use mathlib.Core.Bool.{Bool, true, false}
use mathlib.Core.Option.{Option, none, some}
use mathlib.Core.List.{List, [], ◌∷◌}
use native.Mathlib.Omega.{arith}
use Prim.Native.Nat.{suc}
use sema.Base.Tests.{if_branches, if◌then◌else◌, holds}
use sema.Base.Lists.{length, All}
use sema.Base.Bytes.{Text, Text-discrete}

module _ {ℓ} {A : Type ℓ} (less : A → A → Bool) where
  unfoldable pub insert_sorted : A → List A → List A
  insert_sorted x [] = x ∷ []
  insert_sorted x (y ∷ ys) = if less y x then y ∷ insert_sorted x ys else x ∷ y ∷ ys

  unfoldable pub sort : List A → List A
  unfolding insert_sorted
  sort [] = []
  sort (x ∷ xs) = insert_sorted x (sort xs)

  length-insert_sorted : (x : A) (ys : List A) → length (insert_sorted x ys) ≡ suc (length ys)
  unfolding insert_sorted
  length-insert_sorted x [] = refl
  length-insert_sorted x (y ∷ ys) = ground (arith, length-insert_sorted x ys)

  pub length-sort : (xs : List A) → length (sort xs) ≡ length xs
  unfolding sort
  length-sort [] = refl
  length-sort (x ∷ xs) = omega (arith, length-insert_sorted x (sort xs), length-sort xs)

  module _ {κ} (P : A → Type κ) where
    All-insert_sorted : (x : A) (ys : List A) → P x → All P ys → All P (insert_sorted x ys)
    unfolding insert_sorted
    All-insert_sorted x [] h hs = (h, tt)
    All-insert_sorted x (y ∷ ys) h hs =
        if_branches (All P) (less y x) (λ _. (hs.0, All-insert_sorted x ys h hs.1)) (λ _. (h, hs))

    pub All-sort : (xs : List A) → All P xs → All P (sort xs)
    unfolding sort
    All-sort [] hs = tt
    All-sort (x ∷ xs) hs = All-insert_sorted x (sort xs) hs.0 (All-sort xs hs.1)

  -- No element is less than the one before it.
  abbrev pub IsSorted : List A → Type 0
  IsSorted [] = Unit {0}
  IsSorted (x ∷ []) = Unit {0}
  IsSorted (x ∷ y ∷ ys) = (less y x ≡ false) × IsSorted (y ∷ ys)

  module _ (asym : (x y : A) → less x y ≡ true → less y x ≡ false) where
    insert_sorted-IsSorted : (x : A) (ys : List A) → IsSorted ys → IsSorted (insert_sorted x ys)
    unfolding insert_sorted
    insert_sorted-IsSorted x [] s = tt
    insert_sorted-IsSorted x (y ∷ []) s = ground (arith, asym y x)
    insert_sorted-IsSorted x (y ∷ z ∷ zs) s =
        ground (arith, asym y x, insert_sorted-IsSorted x (z ∷ zs) s.1)

    pub sort-IsSorted : (xs : List A) → IsSorted (sort xs)
    unfolding sort
    sort-IsSorted [] = tt
    sort-IsSorted (x ∷ xs) = insert_sorted-IsSorted x (sort xs) (sort-IsSorted xs)

-- The first element of a name, and lists in which each element is the only one of its name.
module _ {ℓ} {A : Type ℓ} (name : A → Text) where
  unfoldable pub find : Text → List A → Option A
  find k [] = none
  find k (x ∷ xs) = if holds (Text-discrete (name x) k) then some x else find k xs

  abbrev pub DistinctNames : List A → Type ℓ
  DistinctNames [] = Unit
  DistinctNames (x ∷ xs) = (find (name x) xs ≡ none) × DistinctNames xs

  module _ (less : A → A → Bool) where
    find-insert_sorted :
        (k : Text) (x : A) (ys : List A)
        → find (name x) ys ≡ none
        → find k (insert_sorted less x ys)
          ≡ (if holds (Text-discrete (name x) k) then some x else find k ys)
    unfolding find insert_sorted
    find-insert_sorted k x [] h = refl
    find-insert_sorted k x (y ∷ ys) h = ground (arith, find-insert_sorted k x ys)

    -- Sorting loses no element and makes none up.
    pub find-sort : (k : Text) (xs : List A) → DistinctNames xs → find k (sort less xs) ≡ find k xs
    unfolding sort find
    find-sort k [] d = refl
    find-sort k (x ∷ xs) d = ground (
      arith,
      find-sort (name x) xs d.1,
      find-sort k xs d.1,
      find-insert_sorted k x (sort less xs),
    )

    insert_sorted-DistinctNames :
        (x : A) (ys : List A)
        → find (name x) ys ≡ none
        → DistinctNames ys
        → DistinctNames (insert_sorted less x ys)
    unfolding find insert_sorted
    insert_sorted-DistinctNames x [] h d = (refl, tt)
    insert_sorted-DistinctNames x (y ∷ ys) h d =
        ground (arith, find-insert_sorted (name y) x ys, insert_sorted-DistinctNames x ys)

    pub sort-DistinctNames : (xs : List A) → DistinctNames xs → DistinctNames (sort less xs)
    unfolding sort
    sort-DistinctNames [] d = tt
    sort-DistinctNames (x ∷ xs) d =
        insert_sorted-DistinctNames x (sort less xs) (find-sort (name x) xs d.1 ∙ d.0)
          (sort-DistinctNames xs d.1)
