-- ===== src/Base/Int.antt =====
-- Go's `int` and `int64`: integers, with two's-complement wrap-around at 64 bits.
use Prim.Native.Nat.{◌*◌, ℕ, suc, ◌+◌, ◌-◌, ◌/◌, ◌%◌, ◌≤◌, ◌<◌}
use mathlib.Core.Path.{◌≡◌}
use mathlib.Core.Bool.{Bool, true, false}
use native.Mathlib.Omega.{arith}
use native.Mathlib.Decide.{ℕ_discrete}
use sema.Base.Tests.{ltb, leb, if◌then◌else◌}

-- `negsuc n` is -(n + 1).
pub data ℤ : Type 0 where
  pos : ℕ → ℤ
  negsuc : ℕ → ℤ

unfoldable pub ℤ-discrete : Discrete ℤ
unfolding ℕ_discrete
ℤ-discrete = hlevel ℕ_discrete

abbrev pub pos_part : ℤ → ℕ
pos_part (pos n) = n
pos_part (negsuc n) = 0

abbrev pub neg_part : ℤ → ℕ
neg_part (pos n) = 0
neg_part (negsuc n) = suc n

-- `a < b` and `a <= b`.
abbrev pub ltb_ℤ : ℤ → ℤ → Bool
ltb_ℤ a b = ltb (pos_part a + neg_part b) (pos_part b + neg_part a)

abbrev pub leb_ℤ : ℤ → ℤ → Bool
leb_ℤ a b = leb (pos_part a + neg_part b) (pos_part b + neg_part a)

infix 50 ◌≤ℤ◌
abbrev pub ◌≤ℤ◌ : ℤ → ℤ → Type 0
a ≤ℤ b = pos_part a + neg_part b ≤ pos_part b + neg_part a

-- `a < 0`, `a <= 0` and `a == 0`.
abbrev pub is_negative : ℤ → Bool
is_negative (pos n) = false
is_negative (negsuc n) = true

abbrev pub is_not_positive : ℤ → Bool
is_not_positive (pos n) = leb n 0
is_not_positive (negsuc n) = true

abbrev pub is_zero : ℤ → Bool
is_zero (pos n) = leb n 0
is_zero (negsuc n) = false

-- a - b, as an integer.
abbrev pub sub_ℕ : ℕ → ℕ → ℤ
sub_ℕ a b = if leb b a then pos (a - b) else negsuc (b - a - 1)

abbrev pub word : ℕ
word = 18446744073709551616

abbrev pub half_word : ℕ
half_word = 9223372036854775808

-- `uint64(n)`: the bit pattern of an int.
abbrev pub to_word : ℤ → ℕ
to_word (pos n) = n % word
to_word (negsuc n) = word - 1 - n % word

-- The int of a bit pattern.
abbrev pub of_word : ℕ → ℤ
of_word r = if ltb r half_word then pos r else negsuc (word - 1 - r)

unfoldable pub wrap : ℤ → ℤ
wrap a = of_word (to_word a)

infixl 70 ◌*ℤ◌
unfoldable pub ◌*ℤ◌ : ℤ → ℤ → ℤ
unfolding wrap
a *ℤ b = wrap (
    sub_ℕ (pos_part a * pos_part b + neg_part a * neg_part b)
      (pos_part a * neg_part b + neg_part a * pos_part b))

-- Division of Go's ints, which truncates towards zero.
unfoldable pub quot : ℤ → ℤ → ℤ
unfolding wrap
quot (pos a) (pos b) = pos (a / b)
quot (pos a) (negsuc b) = sub_ℕ 0 (a / suc b)
quot (negsuc a) (pos b) = sub_ℕ 0 (suc a / b)
quot (negsuc a) (negsuc b) = wrap (pos (suc a / suc b))

infixl 65 ◌+ℤ◌ ◌-ℤ◌
unfoldable pub ◌+ℤ◌ : ℤ → ℤ → ℤ
unfolding wrap
a +ℤ b = wrap (sub_ℕ (pos_part a + pos_part b) (neg_part a + neg_part b))

unfoldable pub ◌-ℤ◌ : ℤ → ℤ → ℤ
unfolding wrap
a -ℤ b = wrap (sub_ℕ (pos_part a + neg_part b) (neg_part a + pos_part b))

pub wrap_in_range : (n : ℕ) → n < half_word → wrap (pos n) ≡ pos n
unfolding wrap
wrap_in_range n h = ground arith

-- Sums of naturals that fit are exact.
pub +ℤ-pos : (m n : ℕ) → m + n < half_word → pos m +ℤ pos n ≡ pos (m + n)
unfolding ◌+ℤ◌
+ℤ-pos m n h = ground arith

pub -ℤ-pos : (m n : ℕ) → n ≤ m → m < half_word → pos m -ℤ pos n ≡ pos (m - n)
unfolding ◌-ℤ◌
-ℤ-pos m n h b = ground (arith, wrap_in_range (m - n))
