-- ===== src/Base/Sets.antt =====
-- Go's `map[string]struct{}`, as a list of its keys, and lists without repetition.
use mathlib.Core.Path.{◌≡◌, refl}
use mathlib.Core.Logic.{◌≢◌}
use mathlib.Core.Bool.{Bool, false, ◌||◌}
use mathlib.Core.List.{List, [], ◌∷◌, ◌++◌}
use Prim.Native.Nat.{ℕ, suc, ◌+◌, ◌≤◌}
use native.Mathlib.Omega.{arith}
use sema.Base.Tests.{holds, ltb, if◌then◌else◌}
use sema.Base.Lists.{All}
use sema.Base.Bytes.{Text, Text-discrete}

unfoldable pub has : Text → List Text → Bool
has k [] = false
has k (x ∷ xs) = holds (Text-discrete x k) || has k xs

-- `x` is not one of the names.
abbrev pub Absent : Text → List Text → Type 0
Absent x = All (λ y. x ≢ y)

abbrev pub Distinct : List Text → Type 0
Distinct [] = Unit {0}
Distinct (x ∷ xs) = Absent x xs × Distinct xs

pub Absent-of_not_has : (x : Text) (xs : List Text) → has x xs ≡ false → Absent x xs
unfolding has
Absent-of_not_has x [] h = tt
Absent-of_not_has x (y ∷ ys) h = (λ e. ground arith, Absent-of_not_has x ys (ground arith))

pub not_has_of_Absent : (x : Text) (xs : List Text) → Absent x xs → has x xs ≡ false
unfolding has
not_has_of_Absent x [] h = refl
not_has_of_Absent x (y ∷ ys) h = ground (arith, not_has_of_Absent x ys h.1)

-- How often a name stands in a list.
unfoldable pub times : Text → List Text → ℕ
times k [] = 0
times k (x ∷ xs) = let rest = times k xs in if holds (Text-discrete x k) then suc rest else rest

pub times-append : (k : Text) (xs ys : List Text) → times k (xs ++ ys) ≡ times k xs + times k ys
unfolding times
times-append k [] ys = omega arith
times-append k (x ∷ xs) ys = ground (arith, times-append k xs ys)

pub has-times : (k : Text) (xs : List Text) → has k xs ≡ ltb 0 (times k xs)
unfolding has times
has-times k [] = refl
has-times k (x ∷ xs) = ground (arith, has-times k xs)

pub has-append : (k : Text) (xs ys : List Text) → has k (xs ++ ys) ≡ (has k xs || has k ys)
unfolding has
has-append k [] ys = refl
has-append k (x ∷ xs) ys = ground (arith, has-append k xs ys)

Absent-times : (x : Text) (xs : List Text) → times x xs ≡ 0 → Absent x xs
unfolding times
Absent-times x [] h = tt
Absent-times x (y ∷ ys) h = (λ e. ground arith, Absent-times x ys (ground arith))

-- A list in which no name stands twice.
pub Distinct-times : (xs : List Text) → ((k : Text) → times k xs ≤ 1) → Distinct xs
unfolding times
Distinct-times [] h = tt
Distinct-times (x ∷ xs) h =
    (Absent-times x xs (ground (arith, h x)), Distinct-times xs (λ k. ground (arith, h k)))

pub times_of_Distinct : (xs : List Text) → Distinct xs → (k : Text) → times k xs ≤ 1
unfolding times
times_of_Distinct [] d k = omega arith
times_of_Distinct (x ∷ xs) d k =
    let none_left = not_has_of_Absent x xs d.0 in
    ground (arith, times_of_Distinct xs d.1 k, has-times x xs, has-times k xs)
