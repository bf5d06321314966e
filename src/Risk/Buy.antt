-- ===== src/Risk/Buy.antt =====
-- risk/RiskManager.ts: evaluateBuy, which sizes new exposure under the caps and the loss gates.
pub mod Caps
pub mod Sizing
pub mod Gates
use cryptotradingbot.Common.{
  ◌≡◌, refl, Bool, true, false, not, ◌&&◌, ◌||◌, Option, none, some, List, [], ◌∷◌, ◌++◌, arith,
  if◌then◌else◌,
}
use cryptotradingbot.Common.Int.{ℤ, pos, ◌-ℤ◌, ◌<ℤ◌, ◌≤ℤ◌, ltb_ℤ, leb_ℤ}
use cryptotradingbot.Common.Result.{Result, ok}
use cryptotradingbot.Money
use cryptotradingbot.Money.{Money}
use cryptotradingbot.Portfolio.Model.{Balance}
use cryptotradingbot.Risk.Doubles.{Doubles, fraction_of}
use cryptotradingbot.Risk.Model.{
  RiskConfig, MarketInfo, RiskContext, RiskReason, FeeInfo, max_open_positions,
  max_position_exceeded, max_portfolio_exposure_exceeded, max_trade_exceeded, unknown_pnl,
  daily_loss_limit_exceeded, unknown_peak, max_drawdown_exceeded, cooldown_active,
  unknown_portfolio_value, unknown_exposure, unknown_balance, below_min_quantity,
  insufficient_balance,
}
use cryptotradingbot.Risk.Judged.{
  Judged, go, reject, throw, ◌>>=◌, ◌>>◌, reject_if, or_reject, call,
}
use cryptotradingbot.Risk.State.{RiskState, remaining_cooldown_ms}
use cryptotradingbot.Risk.Quantity.{validate_market_quantity}
use cryptotradingbot.Risk.Sell.{Sized, is_none}

pub record Cap : Type 0 where
  pub cap_reason : RiskReason
  pub cap_notional : Money

-- `let binding = caps[0]; for (const cap of caps) …`
unfoldable pub least_cap : Cap → List Cap → Cap
least_cap binding [] = binding
least_cap binding (cap ∷ caps) =
    least_cap (if ltb_ℤ cap.cap_notional binding.cap_notional then cap else binding) caps

unfoldable pub binding_cap : List Cap → Cap
unfolding least_cap
binding_cap [] = record { cap_reason = max_position_exceeded; cap_notional = Money.zero }
binding_cap (cap ∷ caps) = least_cap cap caps

abbrev pub is_positive_amount : Option Money → Bool
is_positive_amount none = false
is_positive_amount (some a) = Money.is_positive a

abbrev pub or_none_open : Option ℤ → ℤ
or_none_open none = pos 0
or_none_open (some n) = n

-- `ctx.deployableQuote ?? ctx.quoteBalance?.available ?? null`
abbrev pub funding_of : Option Money → Option Balance → Option Money
funding_of (some a) balance = some a
funding_of none (some b) = some b.available
funding_of none none = none

module _ {F : Type 0} where
  abbrev pub fee_rate : Option (FeeInfo F) → Option F
  fee_rate none = none
  fee_rate (some info) = some info.taker

  unfoldable pub check_max_open_positions : RiskConfig F → RiskContext F → Judged (Unit {0})
  check_max_open_positions cfg ctx =
      reject_if
        (ltb_ℤ (pos 0) cfg.max_open_positions_limit
          && not (is_positive_amount ctx.current_position)
          && leb_ℤ cfg.max_open_positions_limit (or_none_open ctx.open_managed_position_count))
        max_open_positions

  unfoldable pub check_cooldown : RiskConfig F → RiskState → RiskContext F → Judged (Unit {0})
  check_cooldown cfg s ctx =
      reject_if
        (ltb_ℤ (pos 0) cfg.cooldown_after_loss_ms
          && ltb_ℤ (pos 0) (remaining_cooldown_ms s ctx.now_ms))
        cooldown_active

  unfoldable pub trade_cap : RiskConfig F → List Cap
  trade_cap cfg =
      if Money.is_positive cfg.max_trade_amount
      then record { cap_reason = max_trade_exceeded; cap_notional = cfg.max_trade_amount } ∷ []
      else []

  -- The quantity that the caps permit, on the grid.
  unfoldable pub size_buy : MarketInfo F → Money → Cap → Judged Sized
  size_buy market price caps = do
    reject_if (Money.is_negative_or_zero caps.cap_notional) caps.cap_reason
    base ← call (Money.div caps.cap_notional price)
    quantity ← call (Money.floor_to_increment base market.quantity_tick)
    reject_if (not (Money.is_positive quantity)) below_min_quantity
    validate_market_quantity market price quantity
    notional ← call (Money.floor_to_increment (Money.mul quantity price) market.price_tick)
    go (record { sized_quantity = quantity; sized_notional = notional })

module _ {F : Type 0} (d : Doubles F) where
  -- `feeInfo?.taker ?? 0`
  unfoldable pub estimated_fee : Money → Option F → Result Money
  estimated_fee notional none = ok Money.zero
  estimated_fee notional (some taker) =
      if d.is_below_or_zero taker then ok Money.zero else fraction_of d notional taker

  unfoldable pub check_daily_loss : RiskConfig F → RiskContext F → Money → Judged (Unit {0})
  check_daily_loss cfg ctx portfolio_value =
      if d.is_below_or_zero cfg.max_daily_loss_fraction
      then go tt
      else (or_reject ctx.realized_pnl_today unknown_pnl >>= λ realized.
          or_reject ctx.unrealized_pnl_today unknown_pnl >>= λ unrealized.
          let loss = Money.add realized unrealized in
          if not (Money.is_negative loss)
          then go tt
          else (call (fraction_of d portfolio_value cfg.max_daily_loss_fraction) >>= λ limit.
              reject_if (leb_ℤ limit (Money.negate loss)) daily_loss_limit_exceeded))

  unfoldable pub check_drawdown : RiskConfig F → RiskContext F → Money → Judged (Unit {0})
  check_drawdown cfg ctx current =
      if d.is_below_or_zero cfg.max_drawdown_fraction
      then go tt
      else (or_reject ctx.peak_portfolio_value unknown_peak >>= λ peak.
          if Money.is_negative_or_zero peak
          then go tt
          else (call (fraction_of d peak (d.one_minus cfg.max_drawdown_fraction))
              >>= λ denial_level. reject_if (leb_ℤ current denial_level) max_drawdown_exceeded))

  -- The per-asset cap, measured in base units.
  unfoldable pub position_cap : RiskConfig F → Money → Money → Money → Judged (List Cap)
  position_cap cfg portfolio_value price position =
      if d.is_above_zero cfg.max_position_size_fraction
      then (call (fraction_of d portfolio_value cfg.max_position_size_fraction) >>= λ most.
          call (Money.div most price) >>= λ max_position_base. go (
            record {
              cap_reason = max_position_exceeded;
              cap_notional = Money.mul (Money.sub max_position_base position) price;
            }
            ∷ []))
      else go []

  unfoldable pub exposure_cap : RiskConfig F → Money → Money → Judged (List Cap)
  exposure_cap cfg portfolio_value exposure =
      if d.is_above_zero cfg.max_portfolio_exposure_fraction
      then (call (fraction_of d portfolio_value cfg.max_portfolio_exposure_fraction)
          >>= λ max_exposure. go (
              record {
                cap_reason = max_portfolio_exposure_exceeded;
                cap_notional = Money.sub max_exposure exposure;
              }
              ∷ []))
      else go []

  unfoldable pub compute_buy_caps : RiskConfig F → Money → Money → Money → Money → Judged Cap
  compute_buy_caps cfg portfolio_value exposure price position = do
    by_position ← position_cap cfg portfolio_value price position
    by_exposure ← exposure_cap cfg portfolio_value exposure
    go (binding_cap (by_position ++ (by_exposure ++ trade_cap cfg)))

  -- The funds must cover the notional and the estimated fee.
  unfoldable pub check_funding : RiskContext F → MarketInfo F → Money → Judged (Unit {0})
  check_funding ctx market notional = do
    fee ← call (estimated_fee notional (fee_rate market.fee_info))
    funding ← or_reject (funding_of ctx.deployable_quote ctx.quote_balance) unknown_balance
    reject_if (ltb_ℤ funding (Money.add notional fee)) insufficient_balance

  unfoldable pub check_gates : RiskConfig F → RiskState → RiskContext F → Money → Judged (Unit {0})
  check_gates cfg s ctx portfolio_value = do
    check_daily_loss cfg ctx portfolio_value
    check_drawdown cfg ctx portfolio_value
    check_cooldown cfg s ctx
    check_max_open_positions cfg ctx

  unfoldable pub evaluate_buy :
      RiskConfig F → RiskState → RiskContext F → Money → MarketInfo F → Money → Judged Sized
  evaluate_buy cfg s ctx price market position = do
    portfolio_value ← or_reject ctx.portfolio_value unknown_portfolio_value
    exposure ← or_reject ctx.portfolio_exposure unknown_exposure
    reject_if (is_none ctx.quote_balance && is_none ctx.deployable_quote) unknown_balance
    check_gates cfg s ctx portfolio_value
    caps ← compute_buy_caps cfg portfolio_value exposure price position
    sized ← size_buy market price caps
    check_funding ctx market sized.sized_notional
    go sized
