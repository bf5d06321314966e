-- ===== src/Money/Text.antt =====
-- The text of an amount in money/Money.ts: `fromString`, `toFixed` and `toString`. A text is the
-- list of its code points.
pub mod Digits
pub mod RoundTrip
use cryptotradingbot.Common.{
  ℕ, zero, suc, ◌+◌, ◌-◌, ◌*◌, ◌/◌, ◌%◌, ◌^◌, ◌≡◌, refl, Bool, true, false, not, ◌&&◌, ◌||◌, List,
  [], ◌∷◌, ◌++◌, leb, ltb, ◌==◌, if◌then◌else◌,
}
use cryptotradingbot.Common.Int.{ℤ, pos, negsuc, nat_abs, is_neg, of_sign}
use cryptotradingbot.Common.Result.{
  Result, ok, err, ◌>>=◌, ◌>>◌, throw_if, empty_string, invalid_decimal,
}
use cryptotradingbot.Money.{Money, scale_pow}
use mathlib.Core.List.{reverse}

abbrev pub Text : Type 0
Text = List ℕ

abbrev pub length : Text → ℕ
length [] = 0
length (c ∷ s) = suc (length s)

-- What `trim` and `\s` take for white space: the Unicode spaces and the line ends.
unfoldable pub is_space : ℕ → Bool
is_space c =
    (leb 9 c && leb c 13)
    || c == 32
    || c == 160
    || c == 0x1680
    || (leb 0x2000 c && leb c 0x200a)
    || c == 0x2028
    || c == 0x2029
    || c == 0x202f
    || c == 0x205f
    || c == 0x3000
    || c == 0xfeff

unfoldable pub trim_start : Text → Text
unfolding is_space
trim_start [] = []
trim_start (c ∷ s) = if is_space c then trim_start s else c ∷ s

unfoldable pub trim : Text → Text
unfolding trim_start
trim s = reverse (trim_start (reverse (trim_start s)))

-- `\d`
unfoldable pub is_digit : ℕ → Bool
is_digit c = leb b'0' c && leb c b'9'

unfoldable pub all_digits : Text → Bool
unfolding is_digit
all_digits [] = true
all_digits (c ∷ s) = is_digit c && all_digits s

abbrev pub is_empty : Text → Bool
is_empty [] = true
is_empty (c ∷ s) = false

-- The parts of `s.split('.')`: what stands before the first dot, and what stands after it, if there
-- is one. (A text that matches has one dot at most.)
unfoldable pub before_dot : Text → Text
before_dot [] = []
before_dot (c ∷ s) = if c == b'.' then [] else c ∷ before_dot s

unfoldable pub after_dot : Text → Text
after_dot [] = []
after_dot (c ∷ s) = if c == b'.' then s else after_dot s

abbrev pub starts_with_minus : Text → Bool
starts_with_minus [] = false
starts_with_minus (c ∷ s) = c == b'-'

-- `s.replace(/^[+-]/, '')`
unfoldable pub strip_sign : Text → Text
strip_sign [] = []
strip_sign (c ∷ s) = if c == b'+' || c == b'-' then s else c ∷ s

-- `/^[+-]?(\d+)(\.\d*)?$/`
unfoldable pub is_decimal : Text → Bool
unfolding strip_sign before_dot after_dot all_digits
is_decimal s =
    let t = strip_sign s in
    not (is_empty (before_dot t)) && all_digits (before_dot t) && all_digits (after_dot t)

-- `BigInt(s)` of a text of digits, with `BigInt('')` 0: the value so far, and what is left.
unfoldable pub value_from : ℕ → Text → ℕ
value_from n [] = n
value_from n (c ∷ s) = value_from (n * 10 + (c - b'0')) s

unfoldable pub value : Text → ℕ
unfolding value_from
value s = value_from 0 s

abbrev pub take : ℕ → Text → Text
take zero s = []
take (suc n) [] = []
take (suc n) (c ∷ s) = c ∷ take n s

abbrev pub drop : ℕ → Text → Text
drop zero s = s
drop (suc n) [] = []
drop (suc n) (c ∷ s) = drop n s

abbrev pub replicate : ℕ → ℕ → Text
replicate zero c = []
replicate (suc n) c = c ∷ replicate n c

abbrev pub pad_end : ℕ → Text → Text
pad_end n s = s ++ replicate (n - length s) b'0'

abbrev pub pad_start : ℕ → Text → Text
pad_start n s = replicate (n - length s) b'0' ++ s

-- DEFAULT_SCALE
abbrev pub default_scale : ℕ
default_scale = 8

-- `drop[0] ?? '0'`
abbrev pub first_digit : Text → ℕ
first_digit [] = 0
first_digit (c ∷ s) = c - b'0'

-- The scaled magnitude: digits past the scale are rounded half up by the first of them.
unfoldable pub magnitude : Text → Text → ℕ
unfolding value
magnitude int_part frac_part =
    if ltb default_scale (length frac_part)
    then value int_part * scale_pow
      + value (take default_scale frac_part)
      + (if leb 5 (first_digit (drop default_scale frac_part)) then 1 else 0)
    else value int_part * scale_pow + value (pad_end default_scale frac_part)

-- `fromString` past the `trim`.
unfoldable pub parse : Text → Result Money
parse trimmed = do
  throw_if (is_empty trimmed) empty_string
  throw_if (not (is_decimal trimmed)) invalid_decimal
  let unsigned = strip_sign trimmed
  ok (of_sign (starts_with_minus trimmed) (magnitude (before_dot unsigned) (after_dot unsigned)))

unfoldable pub from_string : Text → Result Money
unfolding parse
from_string input = parse (trim input)

-- `n.toString()` of a bigint from 0 on: the digits, the last one first; the fuel is at least their
-- number.
pub digits_from : ℕ → ℕ → Text → Text
digits_from zero n acc = acc
digits_from (suc f) n acc =
    let rest = digits_from f (n / 10) ((n % 10 + b'0') ∷ acc) in
    if ltb n 10 then (n + b'0') ∷ acc else rest

unfoldable pub digits : ℕ → Text
unfolding digits_from
digits n = digits_from (suc n) n []

abbrev pub sign_text : Bool → Text
sign_text true = b'-' ∷ []
sign_text false = []

-- `toFixed(decimals)`, for a number of decimals from 0 on.
unfoldable pub to_fixed : Money → ℕ → Text
unfolding digits
to_fixed a decimals =
    let display =
      (if leb decimals default_scale
        then nat_abs a / 10 ^ (default_scale - decimals)
        else nat_abs a * 10 ^ (decimals - default_scale)) in
    if decimals == 0
    then sign_text (is_neg a) ++ digits display
    else sign_text (is_neg a)
      ++ (digits (display / 10 ^ decimals)
          ++ (b'.' ∷ pad_start decimals (digits (display % 10 ^ decimals))))

unfoldable pub to_string : Money → Text
unfolding to_fixed
to_string a = to_fixed a default_scale
