-- ===== src/Money/Text/RoundTrip.antt =====
-- Reading back what `toString` of money/Money.ts prints.
use native.Mathlib.Nat.{div-add-mod', div-one, mod-lt}
use mathlib.Core.List.{append-nil}
use cryptotradingbot.Common.{ℕ, ◌-◌, ◌/◌, ◌%◌, ◌≡◌, refl, Bool, true, false, [], ◌∷◌, ◌++◌, arith}
use cryptotradingbot.Common.Int.{pos, negsuc, nat_abs, is_neg, of_sign}
use cryptotradingbot.Common.Result.{ok}
use cryptotradingbot.Money.{Money, scale_pow}
use cryptotradingbot.Money.Text.{
  Text, length, is_empty, is_space, is_digit, all_digits, before_dot, after_dot, strip_sign,
  starts_with_minus, is_decimal, value, digits, to_string, from_string, parse, magnitude, pad_start,
  replicate, sign_text,
}
use cryptotradingbot.Money.Text.Digits.{
  value-digits, digits-all_digits, digits-length, digits-nonempty, value-zeros, zeros-all_digits,
  length-append, length-replicate, solid, solid-append, digits-solid, trim-solid,
}

-- The decimals of an amount: eight digits.
decimals : ℕ → Text
decimals n = pad_start 8 (digits (n % scale_pow))

-- An amount's magnitude, printed.
printed : ℕ → Text
printed n = digits (n / scale_pow) ++ (b'.' ∷ decimals n)

to_string-printed : (a : Money) → to_string a ≡ sign_text (is_neg a) ++ printed (nat_abs a)
unfolding to_string printed decimals
to_string-printed a = rw (div-one (nat_abs a))

length-decimals : (n : ℕ) → length (decimals n) ≡ 8
unfolding decimals
length-decimals n = omega (
  arith,
  length-append (replicate (8 - length (digits (n % scale_pow))) b'0') (digits (n % scale_pow)),
  length-replicate (8 - length (digits (n % scale_pow))) b'0',
  digits-length (n % scale_pow) 7 (mod-lt n (omega arith)),
)

decimals-all_digits : (n : ℕ) → all_digits (decimals n) ≡ true
unfolding decimals
decimals-all_digits n =
    zeros-all_digits _ (digits (n % scale_pow)) (digits-all_digits (n % scale_pow))

value-decimals : (n : ℕ) → value (decimals n) ≡ n % scale_pow
unfolding decimals
value-decimals n = rw (value-zeros, value-digits)

before_dot-digits : (s t : Text) → all_digits s ≡ true → before_dot (s ++ (b'.' ∷ t)) ≡ s
unfolding before_dot all_digits is_digit
before_dot-digits [] t h = refl
before_dot-digits (c ∷ s) t h = ground (arith, before_dot-digits s t)

after_dot-digits : (s t : Text) → all_digits s ≡ true → after_dot (s ++ (b'.' ∷ t)) ≡ t
unfolding after_dot all_digits is_digit
after_dot-digits [] t h = refl
after_dot-digits (c ∷ s) t h = ground (arith, after_dot-digits s t)

strip_sign-digits :
    (s t : Text) → all_digits s ≡ true → is_empty s ≡ false → strip_sign (s ++ t) ≡ s ++ t
unfolding strip_sign all_digits is_digit
strip_sign-digits [] t h e = cc
strip_sign-digits (c ∷ s) t h e = ground arith

unsigned : (b : Bool) (n : ℕ) → strip_sign (sign_text b ++ printed n) ≡ printed n
unfolding strip_sign printed
unsigned true n = refl
unsigned false n =
    strip_sign-digits (digits (n / scale_pow)) (b'.' ∷ decimals n)
      (digits-all_digits (n / scale_pow)) (digits-nonempty (n / scale_pow))

printed-solid : (n : ℕ) → solid (printed n) ≡ true
unfolding printed solid is_space
printed-solid n =
    solid-append (digits (n / scale_pow)) (b'.' ∷ decimals n)
      (digits-solid _ (digits-all_digits (n / scale_pow)))
      (digits-solid (decimals n) (decimals-all_digits n))

signed-solid : (b : Bool) (n : ℕ) → solid (sign_text b ++ printed n) ≡ true
unfolding solid is_space
signed-solid true n = printed-solid n
signed-solid false n = printed-solid n

magnitude-printed : (n : ℕ) → magnitude (digits (n / scale_pow)) (decimals n) ≡ n
unfolding magnitude
magnitude-printed n = rw (
  length-decimals n,
  append-nil (decimals n),
  value-decimals n,
  value-digits (n / scale_pow),
  div-add-mod' n scale_pow,
)

before_dot-printed : (n : ℕ) → before_dot (printed n) ≡ digits (n / scale_pow)
unfolding printed
before_dot-printed n =
    before_dot-digits (digits (n / scale_pow)) (decimals n) (digits-all_digits (n / scale_pow))

after_dot-printed : (n : ℕ) → after_dot (printed n) ≡ decimals n
unfolding printed
after_dot-printed n =
    after_dot-digits (digits (n / scale_pow)) (decimals n) (digits-all_digits (n / scale_pow))

is_decimal-printed : (s : Text) (n : ℕ) → strip_sign s ≡ printed n → is_decimal s ≡ true
unfolding is_decimal
is_decimal-printed s n e = rw (
  e,
  before_dot-printed n,
  after_dot-printed n,
  digits-nonempty (n / scale_pow),
  digits-all_digits (n / scale_pow),
  decimals-all_digits n,
)

of_sign-nat_abs : (a : Money) → of_sign (is_neg a) (nat_abs a) ≡ a
of_sign-nat_abs (pos n) = refl
of_sign-nat_abs (negsuc n) = ground arith

starts_with_minus-digits :
    (s t : Text) → all_digits s ≡ true → is_empty s ≡ false → starts_with_minus (s ++ t) ≡ false
unfolding all_digits is_digit
starts_with_minus-digits [] t h e = cc
starts_with_minus-digits (c ∷ s) t h e = ground arith

starts_with_minus-printed : (b : Bool) (n : ℕ) → starts_with_minus (sign_text b ++ printed n) ≡ b
unfolding printed
starts_with_minus-printed true n = refl
starts_with_minus-printed false n =
    starts_with_minus-digits (digits (n / scale_pow)) (b'.' ∷ decimals n)
      (digits-all_digits (n / scale_pow)) (digits-nonempty (n / scale_pow))

is_empty-decimal : (s : Text) → is_decimal s ≡ true → is_empty s ≡ false
unfolding is_decimal strip_sign before_dot
is_empty-decimal [] h = cc
is_empty-decimal (c ∷ s) h = refl

parse-printed :
    (s : Text) (n : ℕ) → strip_sign s ≡ printed n → parse s ≡ ok (of_sign (starts_with_minus s) n)
unfolding parse
parse-printed s n e =
    let decimal = is_decimal-printed s n e in
    rw (
      is_empty-decimal s decimal,
      decimal,
      e,
      before_dot-printed n,
      after_dot-printed n,
      magnitude-printed n,
    )

read_printed : (b : Bool) (n : ℕ) → from_string (sign_text b ++ printed n) ≡ ok (of_sign b n)
unfolding from_string
read_printed b n =
    rw (trim-solid (sign_text b ++ printed n) (signed-solid b n)) (
      rw (parse-printed (sign_text b ++ printed n) n (unsigned b n), starts_with_minus-printed b n))

-- `fromString` reads back every amount that `toString` prints.
pub from_string-to_string : (a : Money) → from_string (to_string a) ≡ ok a
from_string-to_string a =
    rw (to_string-printed a, read_printed (is_neg a) (nat_abs a), of_sign-nat_abs a)
