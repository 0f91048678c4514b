-- ===== src/Discovery/Index/Sizes.antt =====
-- internal/discovery/index.go: the thresholds in ascending order, and the search among them.
use sema.Base.{
  ℕ, ◌≤◌, List, [], ◌∷◌, none, some, true, false, ℤ, pos, ltb, ltb_ℤ, ◌==◌, ◌≡◌, refl, arith, All,
  inl, inr, ◌⊎◌, Bool-cases, if◌then◌else◌,
}
use sema.Base.Sort.{sort, insert_sorted}
use sema.Discovery.Index.{has_size, last_fitting}

-- Sizes in ascending order: each is at most those behind it.
abbrev pub Ascending : List ℕ → Type 0
Ascending [] = Unit {0}
Ascending (s ∷ ss) = All (λ t. s ≤ t) ss × Ascending ss

All-insert_sorted :
    (b s : ℕ) (ss : List ℕ)
    → b ≤ s
    → All (λ t. b ≤ t) ss
    → All (λ t. b ≤ t) (insert_sorted ltb s ss)
unfolding insert_sorted
All-insert_sorted b s [] h k = (h, tt)
All-insert_sorted b s (t ∷ ts) h k = ground (arith, All-insert_sorted b s ts h k.1)

All-weaken : (b c : ℕ) (ss : List ℕ) → b ≤ c → All (λ t. c ≤ t) ss → All (λ t. b ≤ t) ss
All-weaken b c [] h k = tt
All-weaken b c (s ∷ ss) h k = (omega arith, All-weaken b c ss h k.1)

insert_sorted-Ascending : (s : ℕ) (ss : List ℕ) → Ascending ss → Ascending (insert_sorted ltb s ss)
unfolding insert_sorted
insert_sorted-Ascending s [] h = (tt, tt)
insert_sorted-Ascending s (t ∷ ts) h = elim (Bool-cases (ltb t s)) [
  | inl e ↦ rw e (All-insert_sorted t s ts (ground arith) h.0, insert_sorted-Ascending s ts h.1)
  | inr e ↦ let le : s ≤ t = ground arith in rw e ((le, All-weaken s t ts le h.0), h)
]

pub sort-Ascending : (ss : List ℕ) → Ascending (sort ltb ss)
unfolding sort
sort-Ascending [] = tt
sort-Ascending (s ∷ ss) = insert_sorted-Ascending s (sort ltb ss) (sort-Ascending ss)

has_size-insert_sorted :
    (n s : ℕ) (ss : List ℕ)
    → has_size n (insert_sorted ltb s ss) ≡ (if s == n then true else has_size n ss)
unfolding has_size insert_sorted
has_size-insert_sorted n s [] = refl
has_size-insert_sorted n s (t ∷ ts) = ground (arith, has_size-insert_sorted n s ts)

pub has_size-sort : (n : ℕ) (ss : List ℕ) → has_size n (sort ltb ss) ≡ has_size n ss
unfolding has_size sort
has_size-sort n [] = refl
has_size-sort n (s ∷ ss) =
    ground (arith, has_size-insert_sorted n s (sort ltb ss), has_size-sort n ss)

has_size-least : (b s : ℕ) (ss : List ℕ) → All (λ t. b ≤ t) ss → has_size s ss ≡ true → b ≤ s
unfolding has_size
has_size-least b s [] h k = absurd (cc k)
has_size-least b s (t ∷ ts) h k = ground (arith, has_size-least b s ts h.1)

-- A size that does not exceed the maximum, the greatest such of some sizes.
pub record IsBest (m : ℤ) (t : ℕ) (ss : List ℕ) : Type 0 where
  pub fits : ltb_ℤ m (pos t) ≡ false
  pub listed : has_size t ss ≡ true
  pub greatest : (s : ℕ) → has_size s ss ≡ true → ltb_ℤ m (pos s) ≡ false → s ≤ t

last_fitting-some :
    (m : ℤ) (p : ℕ) (ts : List ℕ)
    → Ascending (p ∷ ts)
    → ltb_ℤ m (pos p) ≡ false
    → (t : ℕ) × (last_fitting m (some p) ts ≡ some t) × IsBest m t (p ∷ ts)
unfolding last_fitting has_size
last_fitting-some m p [] a h =
    (p, refl, record { fits = h; listed = ground arith; greatest = λ s k l. ground arith })
last_fitting-some m p (u ∷ us) a h = elim (Bool-cases (ltb_ℤ m (pos u))) [
  | inl e ↦ (
    p,
    rw e refl,
    record {
      fits = h;
      listed = ground arith;
      greatest = λ s k l. ground (arith, has_size-least u s us a.1.0);
    },
  )
  | inr e ↦
      let (t, found, best) = last_fitting-some m u us a.1 e in
      (
        t,
        rw e found,
        record {
          fits = best.fits;
          listed = ground (arith, best.listed);
          greatest = λ s k l. ground (arith, best.greatest s, best.greatest u);
        },
      )
]

pub last_fitting_cases :
    (m : ℤ) (ss : List ℕ)
    → Ascending ss
    → ((last_fitting m none ss ≡ none) × ((s : ℕ) → has_size s ss ≡ true → ltb_ℤ m (pos s) ≡ true))
      ⊎ ((t : ℕ) × (last_fitting m none ss ≡ some t) × IsBest m t ss)
unfolding last_fitting has_size
last_fitting_cases m [] a = inl (refl, λ s k. absurd (cc k))
last_fitting_cases m (t ∷ ts) a = elim (Bool-cases (ltb_ℤ m (pos t))) [
  | inl e ↦ inl (rw e refl, λ s k. ground (arith, has_size-least t s ts a.0))
  | inr e ↦ let (u, found, best) = last_fitting-some m t ts a e in inr (u, rw e found, best)
]
