-- ===== src/Risk/Manager.antt =====
-- risk/RiskManager.ts: evaluate. A rejection carries the symbol, the side of the signal and the
-- limits whichever check it comes from.
pub mod Approval
pub mod BuySafety
pub mod SellSafety
use cryptotradingbot.Common.{
  ◌≡◌, refl, Bool, true, false, not, Option, none, some, String, arith, if◌then◌else◌,
}
use cryptotradingbot.Common.Int.{ℤ, pos, ltb_ℤ}
use cryptotradingbot.Common.Result.{Result, ok, err}
use cryptotradingbot.Money
use cryptotradingbot.Money.{Money}
use cryptotradingbot.Portfolio.Model.{Side, buy, sell}
use cryptotradingbot.MarketData.Freshness.{
  FreshnessInput, FreshnessCheck, fresh, unfresh, evaluate_freshness,
}
use cryptotradingbot.Risk.Doubles.{Doubles}
use cryptotradingbot.Risk.Model.{
  RiskConfig, RiskContext, MarketInfo, RiskApproval, RiskRejection, SignalType,
  signal_to_order_side, kill_switch_active, no_action, unknown_market_info, unknown_price,
  unknown_position, stale_market_data,
}
use cryptotradingbot.Risk.Judged.{
  Judged, go, reject, throw, ◌>>=◌, ◌>>◌, reject_if, or_reject, call,
}
use cryptotradingbot.Risk.State.{RiskState, applied_limits_of}
use cryptotradingbot.Risk.Sell.{Sized, evaluate_sell}
use cryptotradingbot.Risk.Buy.{evaluate_buy}

pub data RiskDecision (F : Type 0) : Type 0 where
  approved : RiskApproval F → RiskDecision F
  rejected : RiskRejection F → RiskDecision F

-- `!freshness.fresh`
abbrev pub is_unfresh : FreshnessCheck → Bool
is_unfresh fresh = false
is_unfresh (unfresh _) = true

-- The order that a decision is about.
pub record Ticket : Type 0 where
  pub ticket_side : Side
  pub ticket_price : Money
  pub ticket_size : Sized

module _ {F : Type 0} where
  -- The decision that the checks come to.
  unfoldable pub decision_of :
      RiskConfig F → RiskState → RiskContext F → Judged Ticket → Result (RiskDecision F)
  decision_of cfg s ctx (go t) = ok (
      approved (record {
        symbol = ctx.symbol;
        side = t.ticket_side;
        quantity = t.ticket_size.sized_quantity;
        estimated_notional = t.ticket_size.sized_notional;
        price = t.ticket_price;
        applied_limits = applied_limits_of cfg s;
      }))
  decision_of cfg s ctx (reject why) = ok (
      rejected (record {
        symbol = ctx.symbol;
        side = signal_to_order_side ctx.signal_type;
        reason = why;
        applied_limits = applied_limits_of cfg s;
      }))
  decision_of cfg s ctx (throw e) = err e

module _ {F : Type 0} (d : Doubles F) where
  abbrev pub freshness_input : RiskConfig F → RiskContext F → FreshnessInput
  freshness_input cfg ctx = record {
    now_ms = ctx.now_ms;
    quote_timestamp_ms = ctx.market_data_timestamp_ms;
    observed_at_ms = ctx.market_data_observed_at_ms;
    policy = record {
      max_quote_age_ms = cfg.market_data_max_age_ms;
      max_transport_age_ms = cfg.market_data_transport_max_age_ms;
      max_acceptable_future_skew_ms = cfg.max_clock_skew_ms;
    };
  }

  unfoldable pub size_of :
      Side → RiskConfig F → RiskState → RiskContext F → Money → MarketInfo F → Money → Judged Sized
  size_of sell cfg s ctx price market position = evaluate_sell d ctx price market position
  size_of buy cfg s ctx price market position = evaluate_buy d cfg s ctx price market position

  -- The checks of `evaluate`, in their order, up to the approval or the reason.
  unfoldable pub judge : RiskConfig F → RiskState → RiskContext F → Judged Ticket
  judge cfg s ctx = do
    reject_if s.kill_switch_on kill_switch_active
    side ← or_reject (signal_to_order_side ctx.signal_type) no_action
    market ← or_reject ctx.market_info unknown_market_info
    price ← or_reject ctx.price unknown_price
    reject_if (not (Money.is_positive price)) unknown_price
    position ← or_reject ctx.current_position unknown_position
    reject_if (is_unfresh (evaluate_freshness (freshness_input cfg ctx))) stale_market_data
    size ← size_of side cfg s ctx price market position
    go (record { ticket_side = side; ticket_price = price; ticket_size = size })

  unfoldable pub evaluate : RiskConfig F → RiskState → RiskContext F → Result (RiskDecision F)
  unfolding decision_of
  evaluate cfg s ctx = decision_of cfg s ctx (judge cfg s ctx)
