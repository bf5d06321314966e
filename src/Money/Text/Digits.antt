-- ===== src/Money/Text/Digits.antt =====
-- The decimal digits of a number, and the ends of a text that `trim` leaves alone.
use native.Mathlib.Nat.{pow-suc}
use mathlib.Core.List.{reverse, reverse-append, reverse-reverse}
use cryptotradingbot.Common.{
  ℕ, zero, suc, ◌+◌, ◌/◌, ◌%◌, ◌^◌, lt→ltb, ◌<◌, ◌≤◌, ◌≡◌, refl, ap, ◌∙◌, Bool, true, false, ◌&&◌,
  [], ◌∷◌, ◌++◌, ltb, arith, Bool-cases, inl, inr, not,
}
use cryptotradingbot.Money.Text.{
  Text, length, is_empty, is_space, trim, trim_start, is_digit, all_digits, value, value_from,
  digits, digits_from, replicate,
}

pub value_from-digits_from :
    (f n : ℕ) (acc : Text) → n < f → value_from 0 (digits_from f n acc) ≡ value_from n acc
unfolding digits_from value_from
value_from-digits_from zero n acc h = absurd (omega arith)
value_from-digits_from (suc f) n acc h = elim (Bool-cases (ltb n 10)) [
  | inl small ↦ rw small (ap (λ x. value_from x acc) (omega arith))
  | inr large ↦ rw large (
      value_from-digits_from f (n / 10) ((n % 10 + b'0') ∷ acc) (ground arith)
      ∙ ap (λ x. value_from x acc) (omega arith))
]

pub value-digits : (n : ℕ) → value (digits n) ≡ n
unfolding value digits value_from
value-digits n = value_from-digits_from (suc n) n [] (omega arith)

digits_from-all_digits :
    (f n : ℕ) (acc : Text) → all_digits acc ≡ true → all_digits (digits_from f n acc) ≡ true
unfolding digits_from all_digits
digits_from-all_digits zero n acc h = h
digits_from-all_digits (suc f) n acc h = elim (Bool-cases (ltb n 10)) [
  | inl small ↦ rw small (ground arith)
  | inr large ↦ rw large (digits_from-all_digits f (n / 10) ((n % 10 + b'0') ∷ acc) (ground arith))
]

pub digits-all_digits : (n : ℕ) → all_digits (digits n) ≡ true
unfolding digits all_digits
digits-all_digits n = digits_from-all_digits (suc n) n [] refl

digits_from-length :
    (f n k : ℕ) (acc : Text) → n < 10 ^ suc k → length (digits_from f n acc) ≤ suc k + length acc
unfolding digits_from
digits_from-length zero n k acc h = omega arith
digits_from-length (suc f) n zero acc h = rw (lt→ltb n 10 (omega arith)) (omega arith)
digits_from-length (suc f) n (suc k) acc h = elim (Bool-cases (ltb n 10)) [
  | inl small ↦ rw small (omega arith)
  | inr large ↦ rw large (
      omega (
        arith,
        digits_from-length f (n / 10) k ((n % 10 + b'0') ∷ acc) (omega (arith, pow-suc 10 (suc k))),
      ))
]

pub digits-length : (n k : ℕ) → n < 10 ^ suc k → length (digits n) ≤ suc k
unfolding digits
digits-length n k h = omega (arith, digits_from-length (suc n) n k [] h)

digits_from-nonempty :
    (f n : ℕ) (acc : Text) → is_empty acc ≡ false → is_empty (digits_from f n acc) ≡ false
unfolding digits_from
digits_from-nonempty zero n acc h = h
digits_from-nonempty (suc f) n acc h =
    ground (arith, digits_from-nonempty f (n / 10) ((n % 10 + b'0') ∷ acc))

pub digits-nonempty : (n : ℕ) → is_empty (digits n) ≡ false
unfolding digits
digits-nonempty n = ground (arith, digits_from-nonempty n (n / 10) ((n % 10 + b'0') ∷ []))

pub value-zeros : (k : ℕ) (s : Text) → value (replicate k b'0' ++ s) ≡ value s
unfolding value value_from
value-zeros zero s = refl
value-zeros (suc k) s = value-zeros k s

pub zeros-all_digits :
    (k : ℕ) (s : Text) → all_digits s ≡ true → all_digits (replicate k b'0' ++ s) ≡ true
unfolding all_digits
zeros-all_digits zero s h = h
zeros-all_digits (suc k) s h = zeros-all_digits k s h

pub length-append : (s t : Text) → length (s ++ t) ≡ length s + length t
length-append [] t = omega arith
length-append (c ∷ s) t = omega (arith, length-append s t)

pub length-replicate : (k c : ℕ) → length (replicate k c) ≡ k
length-replicate zero c = refl
length-replicate (suc k) c = omega (arith, length-replicate k c)

-- A text with no white space.
unfoldable pub solid : Text → Bool
solid [] = true
solid (c ∷ s) = not (is_space c) && solid s

pub solid-append : (s t : Text) → solid s ≡ true → solid t ≡ true → solid (s ++ t) ≡ true
unfolding solid
solid-append [] t h k = k
solid-append (c ∷ s) t h k = ground (arith, solid-append s t)

digit_not_space : (c : ℕ) → is_digit c ≡ true → is_space c ≡ false
unfolding is_digit is_space
digit_not_space c h = ground arith

pub digits-solid : (s : Text) → all_digits s ≡ true → solid s ≡ true
unfolding solid all_digits
digits-solid [] h = refl
digits-solid (c ∷ s) h = ground (arith, digit_not_space c, digits-solid s)

reverse-solid : (s : Text) → solid s ≡ true → solid (reverse s) ≡ true
unfolding solid
reverse-solid [] h = refl
reverse-solid (c ∷ s) h =
    rw (reverse-append (c ∷ []) s)
      (solid-append (reverse s) (c ∷ []) (reverse-solid s (ground arith)) (ground arith))

trim_start-solid : (s : Text) → solid s ≡ true → trim_start s ≡ s
unfolding solid trim_start
trim_start-solid [] h = refl
trim_start-solid (c ∷ s) h = ground arith

pub trim-solid : (s : Text) → solid s ≡ true → trim s ≡ s
unfolding trim
trim-solid s h =
    rw (trim_start-solid s h, trim_start-solid (reverse s) (reverse-solid s h)) (reverse-reverse s)
