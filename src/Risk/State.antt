-- ===== src/Risk/State.antt =====
-- risk/RiskManager.ts: what the manager keeps between decisions, the kill switch and the cooldown.
pub mod Cooldown
use cryptotradingbot.Common.{◌≡◌, refl, Bool, Option, none, some, if◌then◌else◌}
use cryptotradingbot.Common.Int.{ℤ, pos, ◌+ℤ◌, ◌-ℤ◌, ltb_ℤ}
use cryptotradingbot.Risk.Model.{RiskConfig, AppliedRiskLimits}

pub record RiskState : Type 0 where
  pub kill_switch_on : Bool
  pub cooldown_until_ms : Option ℤ

abbrev pub initial_state : RiskState
initial_state = record { kill_switch_on = Bool.false; cooldown_until_ms = none }

unfoldable pub set_kill_switch : RiskState → Bool → RiskState
set_kill_switch s active = record s { kill_switch_on = active }

module _ {F : Type 0} where
  unfoldable pub record_loss : RiskConfig F → RiskState → ℤ → RiskState
  record_loss cfg s now_ms = record s {
    cooldown_until_ms = some (now_ms +ℤ cfg.cooldown_after_loss_ms);
  }

  unfoldable pub applied_limits_of : RiskConfig F → RiskState → AppliedRiskLimits F
  applied_limits_of cfg s = record {
    trade_amount = cfg.max_trade_amount;
    position_size_fraction = cfg.max_position_size_fraction;
    portfolio_exposure_fraction = cfg.max_portfolio_exposure_fraction;
    daily_loss_fraction = cfg.max_daily_loss_fraction;
    drawdown_fraction = cfg.max_drawdown_fraction;
    after_loss_ms = cfg.cooldown_after_loss_ms;
    open_positions = cfg.max_open_positions_limit;
    kill_switch = s.kill_switch_on;
  }

-- `cooldownUntilMs - nowMs` where it is positive
abbrev pub remaining_until : Option ℤ → ℤ → ℤ
remaining_until none now_ms = pos 0
remaining_until (some until_ms) now_ms =
    if ltb_ℤ (pos 0) (until_ms -ℤ now_ms) then until_ms -ℤ now_ms else pos 0

unfoldable pub remaining_cooldown_ms : RiskState → ℤ → ℤ
remaining_cooldown_ms s now_ms = remaining_until s.cooldown_until_ms now_ms
