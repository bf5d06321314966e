-- ===== src/Money.antt =====
-- money/Money.ts: fixed-point amounts. A `Money` is its `scaled` bigint, in units of 10^-8.
-- `a.compareTo(b) > 0` and its like are written as the tests on integers that they come to
-- (compare_to_lem).
pub mod Rounding
pub mod Text
use cryptotradingbot.Common.{
  ℕ, ◌+◌, ◌*◌, ◌/◌, ◌%◌, ◌≡◌, Bool, true, false, not, ◌&&◌, leb, ltb, ◌==◌, if◌then◌else◌, arith,
}
use cryptotradingbot.Common.Int.{
  ℤ, pos, negsuc, ◌+ℤ◌, ◌-ℤ◌, ◌*ℤ◌, neg, ltb_ℤ, leb_ℤ, eqb_ℤ, nat_abs, is_neg, of_sign, xor_sign,
  quot, rem,
}
use cryptotradingbot.Common.Result.{
  Result, ok, err, ◌>>=◌, ◌>>◌, throw_if, zero_denominator, zero_divisor, bad_increment,
}

abbrev pub Money : Type 0
Money = ℤ

-- SCALE_POW
abbrev pub scale_pow : ℕ
scale_pow = 100000000

abbrev pub from_scaled : ℤ → Money
from_scaled n = n

abbrev pub zero : Money
zero = pos 0

abbrev pub add : Money → Money → Money
add a b = a +ℤ b

abbrev pub sub : Money → Money → Money
sub a b = a -ℤ b

abbrev pub negate : Money → Money
negate a = neg a

-- The quotient is stepped down when a remainder is left and the signs differ.
unfoldable pub mul_fraction : Money → ℤ → ℤ → Result Money
mul_fraction a numerator denominator = do
  throw_if (eqb_ℤ denominator (pos 0)) zero_denominator
  let product = a *ℤ numerator
  let result = quot product denominator
  let remainder = rem product denominator
  ok (
      if not (eqb_ℤ remainder (pos 0)) && xor_sign (is_neg product) (is_neg denominator)
      then result -ℤ pos 1
      else result)

abbrev pub mul_int : Money → ℤ → Money
mul_int a n = a *ℤ n

-- A quotient of magnitudes, rounded half up.
unfoldable pub half_up : ℕ → ℕ → ℕ
half_up n d = if leb d (n % d * 2) then n / d + 1 else n / d

unfoldable pub mul : Money → Money → Money
mul a b = of_sign (xor_sign (is_neg a) (is_neg b)) (half_up (nat_abs a * nat_abs b) scale_pow)

unfoldable pub div : Money → Money → Result Money
div a b = do throw_if (eqb_ℤ b (pos 0)) zero_divisor; ok (quot (a *ℤ pos scale_pow) b)

abbrev pub is_zero : Money → Bool
is_zero a = eqb_ℤ a (pos 0)

abbrev pub is_positive : Money → Bool
is_positive a = ltb_ℤ (pos 0) a

abbrev pub is_negative : Money → Bool
is_negative a = ltb_ℤ a (pos 0)

abbrev pub is_negative_or_zero : Money → Bool
is_negative_or_zero a = leb_ℤ a (pos 0)

compare_to : Money → Money → ℤ
compare_to a b = if ltb_ℤ a b then negsuc 0 else if ltb_ℤ b a then pos 1 else pos 0

abbrev pub equals : Money → Money → Bool
equals a b = eqb_ℤ a b

abbrev pub max : Money → Money → Money
max a b = if leb_ℤ b a then a else b

abbrev pub min : Money → Money → Money
min a b = if leb_ℤ a b then a else b

unfoldable pub round_to_increment : Money → Money → Result Money
round_to_increment a increment = do
  throw_if (is_negative_or_zero increment) bad_increment
  ok (of_sign (is_neg a) (half_up (nat_abs a) (nat_abs increment)) *ℤ increment)

unfoldable pub floor_to_increment : Money → Money → Result Money
floor_to_increment a increment = do
  throw_if (is_negative_or_zero increment) bad_increment
  ok (of_sign (is_neg a) (nat_abs a / nat_abs increment) *ℤ increment)

unfoldable pub is_multiple_of : Money → Money → Result Bool
is_multiple_of a increment = do
  throw_if (is_negative_or_zero increment) bad_increment
  ok (eqb_ℤ (rem a increment) (pos 0))

-- The tests on the sign of `compareTo` are the tests on the integers.
compare_to_lem :
    (a b : Money)
    → (ltb_ℤ (pos 0) (compare_to a b) ≡ ltb_ℤ b a)
      × (ltb_ℤ (compare_to a b) (pos 0) ≡ ltb_ℤ a b)
      × (leb_ℤ (pos 0) (compare_to a b) ≡ leb_ℤ b a)
      × (leb_ℤ (compare_to a b) (pos 0) ≡ leb_ℤ a b)
unfolding compare_to
compare_to_lem a b = ground arith
