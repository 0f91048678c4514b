-- ===== src/Planner/Proposal/Identity.antt =====
-- internal/planner/planner.go: the words and strings of `proposalIdentity` can be told apart.
pub mod Encoding
use sema.Planner.Proposal.{append_proposal_string}
use sema.Base.{
  refl, length, ◌∷◌, ap, ◌∙◌, pos, to_word, word, half_word, [], arith, word, ◌^◌, ◌++◌, Text, ◌≡◌,
  ◌<◌, ◌/◌, ◌%◌, ℕ,
}
use sema.Domain.Policy.{append_canonical_string, big_endian}

-- Two words with the same bytes are the same.
pub big_endian-injective :
    (m n : ℕ) (r s : Text)
    → m < word
    → n < word
    → big_endian m ++ r ≡ big_endian n ++ s
    → (m ≡ n) × (r ≡ s)
unfolding big_endian
big_endian-injective m n r s hm hn h =
    let b7 : m / 256 ^ 7 % 256 ≡ n / 256 ^ 7 % 256 = cc h in
    let b6 : m / 256 ^ 6 % 256 ≡ n / 256 ^ 6 % 256 = cc h in
    let b5 : m / 256 ^ 5 % 256 ≡ n / 256 ^ 5 % 256 = cc h in
    let b4 : m / 256 ^ 4 % 256 ≡ n / 256 ^ 4 % 256 = cc h in
    let b3 : m / 256 ^ 3 % 256 ≡ n / 256 ^ 3 % 256 = cc h in
    let b2 : m / 256 ^ 2 % 256 ≡ n / 256 ^ 2 % 256 = cc h in
    let b1 : m / 256 % 256 ≡ n / 256 % 256 = cc h in
    let b0 : m % 256 ≡ n % 256 = cc h in
    let q7 : m / 256 ^ 7 ≡ n / 256 ^ 7 = omega (arith, b7, hm, hn) in
    let q6 : m / 256 ^ 6 ≡ n / 256 ^ 6 = omega (arith, b6, q7) in
    let q5 : m / 256 ^ 5 ≡ n / 256 ^ 5 = omega (arith, b5, q6) in
    let q4 : m / 256 ^ 4 ≡ n / 256 ^ 4 = omega (arith, b4, q5) in
    let q3 : m / 256 ^ 3 ≡ n / 256 ^ 3 = omega (arith, b3, q4) in
    let q2 : m / 256 ^ 2 ≡ n / 256 ^ 2 = omega (arith, b2, q3) in
    let q1 : m / 256 ≡ n / 256 = omega (arith, b1, q2) in (omega (arith, b0, q1), cc h)

pub big_endian-alone : (m n : ℕ) → m < word → n < word → big_endian m ≡ big_endian n → m ≡ n
unfolding big_endian
big_endian-alone m n hm hn h = (big_endian-injective m n [] [] hm hn h).0

append-split : (v w r s : Text) → length v ≡ length w → v ++ r ≡ w ++ s → (v ≡ w) × (r ≡ s)
append-split [] [] r s l h = (refl, h)
append-split [] (y ∷ w) r s l h = absurd (omega (arith, l))
append-split (x ∷ v) [] r s l h = absurd (omega (arith, l))
append-split (x ∷ v) (y ∷ w) r s l h =
    let (same, rest) = append-split v w r s (omega (arith, l)) (cc h) in (cc (h, same), rest)

pub append_assoc : (a b c : Text) → (a ++ b) ++ c ≡ a ++ (b ++ c)
append_assoc [] b c = refl
append_assoc (x ∷ a) b c = ap (λ r. x ∷ r) (append_assoc a b c)

-- A string that an int can measure.
abbrev pub Measured : Text → Type 0
Measured v = length v < half_word

-- A string before its rest.
abbrev pub string_before : Text → Text → Text
string_before v r = big_endian (to_word (pos (length v))) ++ (v ++ r)

pub string_before-append_proposal_string :
    (encoded v r : Text) → append_proposal_string encoded v ++ r ≡ encoded ++ string_before v r
unfolding append_canonical_string
string_before-append_proposal_string encoded v r =
    let n = big_endian (to_word (pos (length v))) in
    append_assoc (encoded ++ n) v r ∙ append_assoc encoded n (v ++ r)

pub string_before-injective :
    (v w r s : Text)
    → Measured v
    → Measured w
    → string_before v r ≡ string_before w s
    → (v ≡ w) × (r ≡ s)
string_before-injective v w r s hv hw h =
    let (words, rest) =
      big_endian-injective (to_word (pos (length v))) (to_word (pos (length w))) (v ++ r) (w ++ s)
        (omega arith) (omega arith) h in
    append-split v w r s (omega (arith, words, hv, hw)) rest
