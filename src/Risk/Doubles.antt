-- ===== src/Risk/Doubles.antt =====
-- The fractions of risk/RiskConfig.ts are floating-point numbers of the language. What
-- risk/RiskManager.ts does with them is an interface here: comparisons with 0 and 1, `1 - f`, and
-- the rounded number of billionths that `fractionOf` reads. The paper engine adds `1 + f`.
use cryptotradingbot.Common.{Bool}
use cryptotradingbot.Common.Int.{ℤ, pos}
use cryptotradingbot.Common.Result.{Result, ◌>>=◌}
use cryptotradingbot.Money
use cryptotradingbot.Money.{Money}

pub record Doubles (F : Type 0) : Type 0 where
  pub is_finite : F → Bool
  -- `f > 0`
  pub is_above_zero : F → Bool
  -- `f <= 0`
  pub is_below_or_zero : F → Bool
  -- `f > 1`
  pub is_above_one : F → Bool
  -- `1 - f`
  pub one_minus : F → F
  -- `1 + f`
  pub one_plus : F → F
  -- `BigInt(Math.round(f * 1e9))`, which throws where the product is not finite
  pub billionths : F → Result ℤ

abbrev pub fraction_divisor : ℤ
fraction_divisor = pos 1000000000

-- RiskManager.fractionOf
unfoldable pub fraction_of : {F : Type 0} → Doubles F → Money → F → Result Money
fraction_of d money fraction =
    d.billionths fraction >>= λ n. Money.mul_fraction money n fraction_divisor
