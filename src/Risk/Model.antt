-- ===== src/Risk/Model.antt =====
-- risk/RiskConfig.ts, RiskContext.ts and Reason.ts, and the types of types.ts that they name. `F` is
-- the type of the fractions.
use cryptotradingbot.Common.{ℕ, Bool, Option, none, some, String}
use cryptotradingbot.Common.Int.{ℤ}
use cryptotradingbot.Money.{Money}
use cryptotradingbot.Portfolio.Model.{Side, buy, sell, Balance, FeeCurrency}

pub data RiskReason : Type 0 where
  kill_switch_active stale_market_data unknown_price unknown_balance unknown_position : RiskReason
  unknown_portfolio_value unknown_peak unknown_pnl unknown_market_info unknown_exposure : RiskReason
  daily_loss_limit_exceeded max_drawdown_exceeded max_position_exceeded : RiskReason
  max_portfolio_exposure_exceeded max_trade_exceeded cooldown_active insufficient_balance :
      RiskReason
  invalid_quantity below_min_quantity precision_violation : RiskReason
  no_action sell_exceeds_position invalid_sell_target sell_exceeds_managed_position : RiskReason
  max_open_positions : RiskReason

pub record RiskConfig (F : Type 0) : Type 0 where
  pub max_trade_amount : Money
  pub max_position_size_fraction : F
  pub max_portfolio_exposure_fraction : F
  pub max_daily_loss_fraction : F
  pub max_drawdown_fraction : F
  pub cooldown_after_loss_ms : ℤ
  pub max_open_positions_limit : ℤ
  pub market_data_max_age_ms : ℤ
  pub market_data_transport_max_age_ms : ℤ
  pub max_clock_skew_ms : ℤ

pub record AppliedRiskLimits (F : Type 0) : Type 0 where
  pub trade_amount : Money
  pub position_size_fraction : F
  pub portfolio_exposure_fraction : F
  pub daily_loss_fraction : F
  pub drawdown_fraction : F
  pub after_loss_ms : ℤ
  pub open_positions : ℤ
  pub kill_switch : Bool

-- Signal.type
pub data SignalType : Type 0 where
  buy_signal sell_signal hold_signal : SignalType

-- strategy/Signal.ts: signalToOrderSide
abbrev pub signal_to_order_side : SignalType → Option Side
signal_to_order_side buy_signal = some buy
signal_to_order_side sell_signal = some sell
signal_to_order_side hold_signal = none

pub record FeeInfo (F : Type 0) : Type 0 where
  pub maker : F
  pub taker : F
  pub charged_in : FeeCurrency

pub record MarketInfo (F : Type 0) : Type 0 where
  pub market_symbol : String
  pub exchange_id : String
  pub price_tick : Money
  pub base_precision : ℕ
  pub quote_precision : ℕ
  pub quantity_tick : Money
  pub min_order_base : Option Money
  pub min_order_quote : Option Money
  pub supports_market_orders : Bool
  pub fee_info : Option (FeeInfo F)

pub record SellTarget (F : Type 0) : Type 0 where
  pub fraction : Option F
  pub notional : Option Money

-- RiskContext. Of the signal, the manager reads the type.
pub record RiskContext (F : Type 0) : Type 0 where
  pub symbol : String
  pub signal_type : SignalType
  pub now_ms : ℤ
  pub market_data_timestamp_ms : Option ℤ
  pub market_data_observed_at_ms : Option ℤ
  pub price : Option Money
  pub market_info : Option (MarketInfo F)
  pub quote_balance : Option Balance
  pub deployable_quote : Option Money
  pub portfolio_value : Option Money
  pub peak_portfolio_value : Option Money
  pub portfolio_exposure : Option Money
  pub current_position : Option Money
  pub external_position : Option Money
  pub open_managed_position_count : Option ℤ
  pub realized_pnl_today : Option Money
  pub unrealized_pnl_today : Option Money
  pub sell_target : Option (SellTarget F)

pub record RiskApproval (F : Type 0) : Type 0 where
  pub symbol : String
  pub side : Side
  pub quantity : Money
  pub estimated_notional : Money
  pub price : Money
  pub applied_limits : AppliedRiskLimits F

-- RiskRejection, less the text for the log.
pub record RiskRejection (F : Type 0) : Type 0 where
  pub symbol : String
  pub side : Option Side
  pub reason : RiskReason
  pub applied_limits : AppliedRiskLimits F
