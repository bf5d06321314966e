-- ===== src/Money/Rounding/Grid.antt =====
-- The tick grid of money/Money.ts: `floorToIncrement`, `roundToIncrement` and `isMultipleOf` agree,
-- and a quantity sized from a notional costs at most that notional.
use native.Mathlib.Nat.{mul-mod_left}
use cryptotradingbot.Common.{
  ℕ, zero, suc, ◌+◌, ◌*◌, ◌/◌, ◌<◌, ◌≤◌, ◌≡◌, refl, Bool, true, false, arith,
}
use cryptotradingbot.Common.Int.{pos, negsuc, ◌≤ℤ◌, nat_abs, is_neg, ◌*ℤ◌, of_sign, rem, quot}
use cryptotradingbot.Common.Result.{ok, ◌>>=◌}
use cryptotradingbot.Money.{
  Money, scale_pow, half_up, mul, div, floor_to_increment, round_to_increment, is_multiple_of,
}
use cryptotradingbot.Money.Rounding.{
  div_below, div_above, half_up_bounds, nat_abs-of_sign, floor_to_increment_lem,
  round_to_increment_lem, mul_nonneg,
}

of_sign_zero : (s : Bool) → of_sign s 0 ≡ pos 0
of_sign_zero true = refl
of_sign_zero false = refl

rem_multiple : (s : Bool) (k i : ℕ) → rem (of_sign s (k * i)) (pos i) ≡ pos 0
unfolding rem
rem_multiple s k i = rw (nat_abs-of_sign s (k * i), mul-mod_left k i) (of_sign_zero _)

is_multiple_of-of_sign :
    (s : Bool) (k i : ℕ) → 0 < i → is_multiple_of (of_sign s (k * i)) (pos i) ≡ ok true
unfolding is_multiple_of
is_multiple_of-of_sign s k i h = ground (arith, rem_multiple s k i)

-- Two amounts whose signs do not oppose each other.
abbrev pub SameSide : Money → Money → Type 0
SameSide a r = (pos 0 ≤ℤ a → pos 0 ≤ℤ r) × (a ≤ℤ pos 0 → r ≤ℤ pos 0)

of_sign-SameSide : (a : Money) (n : ℕ) → (nat_abs a ≡ 0 → n ≡ 0) → SameSide a (of_sign (is_neg a) n)
of_sign-SameSide (pos m) n h = (λ _. omega arith, λ le. omega (arith, h (omega arith)))
of_sign-SameSide (negsuc m) n h = (λ le. absurd (omega arith), λ _. ground arith)

-- `floorToIncrement` returns a multiple of the increment that `isMultipleOf` accepts, on the same
-- side of zero, of no larger magnitude, and short of it by less than an increment.
pub floor_on_grid :
    (a : Money) (i : ℕ)
    → 0 < i
    → (r : Money) × (floor_to_increment a (pos i) ≡ ok r)
      × (is_multiple_of r (pos i) ≡ ok true)
      × SameSide a r
      × (nat_abs r ≤ nat_abs a)
      × (nat_abs a < nat_abs r + i)
floor_on_grid a i h =
    let size = nat_abs-of_sign (is_neg a) (nat_abs a / i * i) in
    (
      of_sign (is_neg a) (nat_abs a / i * i),
      floor_to_increment_lem a i h,
      is_multiple_of-of_sign (is_neg a) (nat_abs a / i) i h,
      of_sign-SameSide a (nat_abs a / i * i) (λ z. omega (arith, div_below (nat_abs a) i)),
      omega (arith, size, div_below (nat_abs a) i),
      omega (arith, size, div_above (nat_abs a) i h),
    )

half_up_zero : (i : ℕ) → 0 < i → half_up 0 i * i ≡ 0
half_up_zero i h = below_half (half_up 0 i) i (half_up_bounds 0 i h).0 h
  where
    below_half : (q i : ℕ) → q * i * 2 ≤ 0 * 2 + i → 0 < i → q * i ≡ 0
    below_half zero i b p = omega arith
    below_half (suc q) i b p = absurd (omega arith)

rounds_zero : (n i : ℕ) → 0 < i → n ≡ 0 → half_up n i * i ≡ 0
rounds_zero n i h z = rw z (half_up_zero i h)

-- `roundToIncrement` returns a multiple of the increment, on the same side of zero, at most half an
-- increment away.
pub round_on_grid :
    (a : Money) (i : ℕ)
    → 0 < i
    → (r : Money) × (round_to_increment a (pos i) ≡ ok r)
      × (is_multiple_of r (pos i) ≡ ok true)
      × SameSide a r
      × (nat_abs r * 2 ≤ nat_abs a * 2 + i)
      × (nat_abs a * 2 < nat_abs r * 2 + i)
round_on_grid a i h =
    let size = nat_abs-of_sign (is_neg a) (half_up (nat_abs a) i * i) in
    let (low, high) = half_up_bounds (nat_abs a) i h in
    (
      of_sign (is_neg a) (half_up (nat_abs a) i * i),
      round_to_increment_lem a i h,
      is_multiple_of-of_sign (is_neg a) (half_up (nat_abs a) i) i h,
      of_sign-SameSide a (half_up (nat_abs a) i * i) (rounds_zero (nat_abs a) i h),
      omega (arith, size, low),
      omega (arith, size, high),
    )

-- Rounding a product that does not pass a whole number of units does not pass it either.
half_up-le : (x n : ℕ) → x ≤ n * scale_pow → half_up x scale_pow ≤ n
half_up-le x n h = omega (arith, half_up_bounds x scale_pow (omega arith))

-- `n.div(p).floorToIncrement(t)` for positive amounts.
unfoldable pub sized : ℕ → ℕ → ℕ → ℕ
sized n p t = n * scale_pow / p / t * t

pub div_pos : (n p : ℕ) → 0 < p → div (pos n) (pos p) ≡ ok (pos (n * scale_pow / p))
unfolding div quot ◌*ℤ◌
div_pos n p h = ground arith

pub floor_pos : (n t : ℕ) → 0 < t → floor_to_increment (pos n) (pos t) ≡ ok (pos (n / t * t))
floor_pos n t h = floor_to_increment_lem (pos n) t h

pub div-floor :
    (n p t : ℕ)
    → 0 < p
    → 0 < t
    → (div (pos n) (pos p) >>= λ q. floor_to_increment q (pos t)) ≡ ok (pos (sized n p t))
unfolding sized
div-floor n p t hp ht = rw (div_pos n p hp) (floor_pos (n * scale_pow / p) t ht)

chain : (q x p : ℕ) {y : ℕ} → q ≤ x → x * p ≤ y → q * p ≤ y
chain q x p h k = grind arith

sized-fits : (n p t : ℕ) → sized n p t * p ≤ n * scale_pow
unfolding sized
sized-fits n p t =
    chain (n * scale_pow / p / t * t) (n * scale_pow / p) p (div_below _ t)
      (div_below (n * scale_pow) p)

-- A quantity sized from a notional at a price, floored to the tick, costs at most the notional at
-- that price.
pub sized-cost : (n p t : ℕ) → mul (pos (sized n p t)) (pos p) ≤ℤ pos n
sized-cost n p t =
    rw (mul_nonneg (pos (sized n p t)) (pos p) (omega arith) (omega arith))
      (omega (arith, half_up-le (sized n p t * p) n (sized-fits n p t)))
