-- ===== src/Money/Rounding/Share.antt =====
-- money/Money.ts: `mulFraction` of an amount that is not negative by a fraction that is not negative.
use cryptotradingbot.Common.{ℕ, ◌*◌, ◌/◌, ◌≡◌, ◌∙◌, ◌<◌, ◌≤◌, sym, arith}
use cryptotradingbot.Common.Int.{pos, ◌≤ℤ◌, ◌*ℤ◌, quot, rem}
use cryptotradingbot.Common.Result.{ok, ok-injective}
use cryptotradingbot.Money.{Money, mul_fraction}
use cryptotradingbot.Money.Rounding.{div_below}
use native.Mathlib.Nat.{mul-le-mul_left, le_trans, le_of_mul-le-mul_right}

-- The share is rounded down.
mul_fraction-pos : (k j d : ℕ) → 0 < d → mul_fraction (pos k) (pos j) (pos d) ≡ ok (pos (k * j / d))
unfolding mul_fraction quot rem ◌*ℤ◌
mul_fraction-pos k j d h = ground (arith, h)

-- It is not negative.
pub mul_fraction_nonneg :
    (k j d : ℕ) (r : Money) → 0 < d → mul_fraction (pos k) (pos j) (pos d) ≡ ok r → pos 0 ≤ℤ r
mul_fraction_nonneg k j d r h e =
    rw (sym (ok-injective (sym (mul_fraction-pos k j d h) ∙ e))) (omega arith)

-- By a fraction of at most one it is at most the amount.
pub mul_fraction_at_most :
    (k j d : ℕ) (r : Money)
    → 0 < d
    → j ≤ d
    → mul_fraction (pos k) (pos j) (pos d) ≡ ok r
    → r ≤ℤ pos k
mul_fraction_at_most k j d r h part e =
    let below : k * j / d ≤ k =
      le_of_mul-le-mul_right (le_trans (div_below (k * j) d) (mul-le-mul_left k part)) h in
    rw (sym (ok-injective (sym (mul_fraction-pos k j d h) ∙ e))) (omega (arith, below))
