-- ===== src/Money/Rounding.antt =====
-- What the rounding operations of money/Money.ts promise: half up, floor and the step-down of
-- `mulFraction`. The tick grid stands in the child.
pub mod Grid
pub mod Share
use cryptotradingbot.Common.{
  ℕ, zero, ◌+◌, ◌*◌, ◌/◌, ◌%◌, ◌<◌, ◌≤◌, ◌≡◌, refl, Bool, true, false, inl, inr, if◌then◌else◌, not,
  ◌&&◌, Bool-cases, ap, ◌==◌, ==_iff, suc, leb, leb→le, not-leb→lt, arith,
}
use cryptotradingbot.Common.Int.{
  int_laws, pos_part, neg_part, +ℤ_parts, *ℤ_parts, ℤ, pos, negsuc, ◌≤ℤ◌, ◌<ℤ◌, ◌+ℤ◌, ◌*ℤ◌, ◌-ℤ◌,
  nat_abs, is_neg, of_sign, xor_sign, quot, rem, eqb_ℤ,
}
use cryptotradingbot.Common.Result.{ok, ◌>>=◌}
use cryptotradingbot.Money.{
  Money, scale_pow, half_up, mul, mul_fraction, div, floor_to_increment, round_to_increment,
  is_multiple_of,
}
use native.Mathlib.Nat.{div-add-mod, mod-lt}

pub div_below : (n d : ℕ) → n / d * d ≤ n
div_below n d = grind (arith, div-add-mod n d)

pub div_above : (n d : ℕ) → 0 < d → n < n / d * d + d
div_above n d h = grind (arith, div-add-mod n d, mod-lt n h)

-- Rounding half up stays within half a unit.
pub half_up_bounds :
    (n d : ℕ) → 0 < d → (half_up n d * d * 2 ≤ n * 2 + d) × (n * 2 < half_up n d * d * 2 + d)
unfolding half_up
half_up_bounds n d h = elim (Bool-cases (leb d (n % d * 2))) [
  | inl e ↦ rw e (up (n / d) (n % d) (div-add-mod n d) (mod-lt n h) (leb→le _ _ e))
  | inr e ↦ rw e (down (n / d) (n % d) (div-add-mod n d) (not-leb→lt _ _ e))
]
  where
    up :
        (q r : ℕ)
        → d * q + r ≡ n
        → r < d
        → d ≤ r * 2
        → ((q + 1) * d * 2 ≤ n * 2 + d) × (n * 2 < (q + 1) * d * 2 + d)
    up q r e lt le = (grind arith, grind arith)

    down : (q r : ℕ) → d * q + r ≡ n → r * 2 < d → (q * d * 2 ≤ n * 2 + d) × (n * 2 < q * d * 2 + d)
    down q r e lt = (grind arith, grind arith)

pub nat_abs-of_sign : (s : _) (n : ℕ) → nat_abs (of_sign s n) ≡ n
nat_abs-of_sign true n = ground arith
nat_abs-of_sign false n = refl

-- The product of two amounts, as a magnitude.
pub nat_abs-mul : (a b : Money) → nat_abs (mul a b) ≡ half_up (nat_abs a * nat_abs b) scale_pow
unfolding mul
nat_abs-mul a b = nat_abs-of_sign _ _

pub mul_nonneg :
    (a b : Money)
    → pos 0 ≤ℤ a
    → pos 0 ≤ℤ b
    → mul a b ≡ pos (half_up (nat_abs a * nat_abs b) scale_pow)
unfolding mul
mul_nonneg (pos a) (pos b) h k = refl
mul_nonneg (pos a) (negsuc b) h k = absurd (omega arith)
mul_nonneg (negsuc a) b h k = absurd (omega arith)

-- Multiplying by a positive number, in parts.
times_parts :
    (r : ℤ) (d : ℕ)
    → pos_part (r *ℤ pos d) + neg_part r * d ≡ neg_part (r *ℤ pos d) + pos_part r * d
times_parts r d = omega (arith, *ℤ_parts r (pos d))

next_parts :
    (r : ℤ) (d : ℕ)
    → pos_part ((r +ℤ pos 1) *ℤ pos d) + neg_part r * d
      ≡ neg_part ((r +ℤ pos 1) *ℤ pos d) + pos_part r * d + d
next_parts r d =
    omega (arith, times_parts (r +ℤ pos 1) d, ap (λ (t : ℕ). t * d) (+ℤ_parts r (pos 1)))

-- The step down turns division toward zero into the floor.
step_down : ℤ → ℕ → ℤ
step_down p d =
    if not (eqb_ℤ (rem p (pos d)) (pos 0)) && xor_sign (is_neg p) false
    then quot p (pos d) -ℤ pos 1
    else quot p (pos d)

step_down-pos : (n d : ℕ) → step_down (pos n) d ≡ pos (n / d)
unfolding step_down rem quot
step_down-pos n d = ground arith

step_down-negsuc :
    (n d : ℕ)
    → (pos_part (step_down (negsuc n) d) ≡ 0)
      × (neg_part (step_down (negsuc n) d) ≡ (if suc n % d == 0 then suc n / d else suc n / d + 1))
unfolding step_down rem quot ◌-ℤ◌
step_down-negsuc n d = (ground arith, ground arith)

ceil_bounds :
    (m d : ℕ)
    → 0 < d
    → (m ≤ (if m % d == 0 then m / d else m / d + 1) * d)
      × ((if m % d == 0 then m / d else m / d + 1) * d < m + d)
ceil_bounds m d h = elim (Bool-cases (m % d == 0)) [
  | inl e ↦ rw e (exact (m / d) (m % d) (div-add-mod m d) ((==_iff _ _).0 e))
  | inr e ↦ rw e (inexact (m / d) (m % d) (div-add-mod m d) (mod-lt m h) (ground (arith, e)))
]
  where
    exact : (q r : ℕ) → d * q + r ≡ m → r ≡ 0 → (m ≤ q * d) × (q * d < m + d)
    exact q r e z = (grind arith, grind arith)

    inexact : (q r : ℕ) → d * q + r ≡ m → r < d → 0 < r → (m ≤ (q + 1) * d) × ((q + 1) * d < m + d)
    inexact q r e lt z = (grind arith, grind arith)

floor_bounds :
    (p : ℤ) (d : ℕ)
    → 0 < d
    → (step_down p d *ℤ pos d ≤ℤ p) × (p <ℤ (step_down p d +ℤ pos 1) *ℤ pos d)
floor_bounds (pos n) d h = rw step_down-pos (
  omega (arith, times_parts (pos (n / d)) d, div_below n d),
  omega (arith, next_parts (pos (n / d)) d, div_above n d h),
)
floor_bounds (negsuc n) d h =
    let (none_left, rounded) = step_down-negsuc n d in
    let r = step_down (negsuc n) d in
    let scaled = ap (λ (t : ℕ). t * d) rounded in
    let nothing = ap (λ (t : ℕ). t * d) none_left in
    let (above, below) = ceil_bounds (suc n) d h in
    (
      omega (arith, times_parts r d, scaled, nothing, above),
      omega (arith, next_parts r d, scaled, nothing, below),
    )

mul_fraction-step_down :
    (a n : Money) (d : ℕ) → 0 < d → mul_fraction a n (pos d) ≡ ok (step_down (a *ℤ n) d)
unfolding mul_fraction step_down
mul_fraction-step_down a n d h = ground arith

-- `mulFraction` by n/d with d > 0 is the floor of a·n/d.
pub mul_fraction_floor :
    (a n : Money) (d : ℕ)
    → 0 < d
    → (r : Money) × (mul_fraction a n (pos d) ≡ ok r)
      × (r *ℤ pos d ≤ℤ a *ℤ n)
      × (a *ℤ n <ℤ (r +ℤ pos 1) *ℤ pos d)
mul_fraction_floor a n d h =
    let (low, high) = floor_bounds (a *ℤ n) d h in
    (step_down (a *ℤ n) d, mul_fraction-step_down a n d h, low, high)

of_sign-true_parts : (q : ℕ) → (pos_part (of_sign true q) ≡ 0) × (neg_part (of_sign true q) ≡ q)
of_sign-true_parts q = (ground arith, ground arith)

pub of_sign-times : (s : Bool) (q i : ℕ) → of_sign s q *ℤ pos i ≡ of_sign s (q * i)
of_sign-times false q i = omega (int_laws, times_parts (pos q) i)
of_sign-times true q i =
    let (p, n) = of_sign-true_parts q in
    let (p', n') = of_sign-true_parts (q * i) in
    omega (
      int_laws,
      times_parts (of_sign true q) i,
      p',
      n',
      ap (λ (t : ℕ). t * i) p,
      ap (λ (t : ℕ). t * i) n,
    )

pub floor_to_increment_lem :
    (a : Money) (i : ℕ)
    → 0 < i
    → floor_to_increment a (pos i) ≡ ok (of_sign (is_neg a) (nat_abs a / i * i))
unfolding floor_to_increment
floor_to_increment_lem a i h = ground (arith, of_sign-times (is_neg a) (nat_abs a / i) i)

pub round_to_increment_lem :
    (a : Money) (i : ℕ)
    → 0 < i
    → round_to_increment a (pos i) ≡ ok (of_sign (is_neg a) (half_up (nat_abs a) i * i))
unfolding round_to_increment
round_to_increment_lem a i h = ground (arith, of_sign-times (is_neg a) (half_up (nat_abs a) i) i)
