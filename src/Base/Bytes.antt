-- ===== src/Base/Bytes.antt =====
-- Go strings as byte sequences: equality, and the bytewise order of `<` and `cmp.Compare`.
use Prim.Native.Nat.{ℕ, zero, suc, ◌+◌, ◌/◌, ◌%◌, compare, Ordering}
use sema.Base.Tests.{ltb, if◌then◌else◌}
use Prim.Native.Char.{code}
use Prim.Native.String.{String}
use mathlib.Core.List.{List, [], ◌∷◌}
use mathlib.Core.Bool.{Bool, true, false}
use mathlib.Core.Path.{◌≡◌, refl}
use native.Mathlib.Omega.{arith}
use native.Mathlib.Decide.{ℕ_discrete}

abbrev pub Text : Type 0
Text = List ℕ

unfoldable pub Text-discrete : Discrete Text
unfolding ℕ_discrete
Text-discrete = hlevel ℕ_discrete

-- The bytes of an ASCII literal.
abbrev pub bytes : String → Text
bytes String.[] = []
bytes (String.◌∷◌ c s) = code c ∷ bytes s

-- `s == ""`.
abbrev pub is_blank : Text → Bool
is_blank [] = true
is_blank (_ ∷ _) = false

-- `cmp.Compare` on strings.
unfoldable pub bytes_compare : Text → Text → Ordering
bytes_compare [] [] = Ordering.eq
bytes_compare [] (_ ∷ _) = Ordering.lt
bytes_compare (_ ∷ _) [] = Ordering.gt
bytes_compare (a ∷ s) (b ∷ t) =
    let rest = bytes_compare s t in
    elim (compare a b) [
      | Ordering.lt ↦ Ordering.lt
      | Ordering.gt ↦ Ordering.gt
      | Ordering.eq ↦ rest
    ]

-- The order of strings is antisymmetric.
pub bytes_compare-lt :
    (s t : Text) → bytes_compare s t ≡ Ordering.lt → bytes_compare t s ≡ Ordering.gt
unfolding bytes_compare
bytes_compare-lt [] [] h = cc
bytes_compare-lt [] (b ∷ t) h = refl
bytes_compare-lt (a ∷ s) [] h = cc
bytes_compare-lt (a ∷ s) (b ∷ t) h = ground (arith, bytes_compare-lt s t)

-- `%d`: the decimal digits of a number, before `rest`; a number has at most as many as its value.
unfoldable pub digits_before : ℕ → ℕ → Text → Text
digits_before zero n rest = rest
digits_before (suc fuel) n rest =
    let more = digits_before fuel (n / 10) ((48 + n % 10) ∷ rest) in
    if ltb n 10 then (48 + n) ∷ rest else more

unfoldable pub decimal : ℕ → Text
decimal n = digits_before (suc n) n []
