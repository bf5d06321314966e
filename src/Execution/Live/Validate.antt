-- ===== src/Execution/Live/Validate.antt =====
-- execution/LiveExecutionEngine.ts: the checks on an order before it is submitted.
pub mod Submittable
use cryptotradingbot.Common.{
  Bool, true, false, not, ◌&&◌, Option, none, some, List, [], ◌∷◌, String, str_eq, if◌then◌else◌,
}
use cryptotradingbot.Common.Int.{pos, ltb_ℤ}
use cryptotradingbot.Common.Result.{Result, ok}
use cryptotradingbot.Money
use cryptotradingbot.Money.{Money}
use cryptotradingbot.Portfolio.Model.{Side, buy, sell, Balance}
use cryptotradingbot.Portfolio.Ids.{base_of, quote_of}
use cryptotradingbot.Reconcile.Model.{OrderType, market_order, limit_order}
use cryptotradingbot.Risk.Doubles.{Doubles, fraction_of}
use cryptotradingbot.Risk.Model.{MarketInfo, FeeInfo}
use cryptotradingbot.Execution.Live.Model.{
  NewOrder, OrderTif, ioc, gtc, fok, LiveError, not_limit, not_ioc, quantity_not_positive,
  above_max_base, off_quantity_grid, below_min_base, price_required, off_price_grid,
  below_min_quote, above_max_quote, no_reference_price, insufficient_quote, insufficient_base,
  Attempt, done, thrown, ◌>>=◌, ◌>>◌, throw_if, lift, LiveConfig, Replies,
}
use cryptotradingbot.Execution.Session.{AutonomousLiveSession}

abbrev pub is_limit : OrderType → Bool
is_limit market_order = false
is_limit limit_order = true

abbrev pub is_ioc : Option OrderTif → Bool
is_ioc (some ioc) = true
is_ioc (some gtc) = false
is_ioc (some fok) = false
is_ioc none = false

abbrev pub is_given_session : Option AutonomousLiveSession → Bool
is_given_session none = false
is_given_session (some session) = true

-- `!tick.isZero() && !amount.isMultipleOf(tick)`
unfoldable pub is_off_grid : Money → Money → Attempt Bool
is_off_grid amount tick =
    if Money.is_zero tick
    then done false
    else (lift (Money.is_multiple_of amount tick) >>= λ fits. done (not fits))

-- `floor && amount < floor`
abbrev pub is_below : Money → Option Money → Bool
is_below amount none = false
is_below amount (some floor) = ltb_ℤ amount floor

-- `!order.price || !order.price.isPositive()`
abbrev pub positive_price : Option Money → Attempt Money
positive_price none = thrown price_required
positive_price (some p) = if Money.is_positive p then done p else thrown price_required

-- `balances.find((b) => b.currency === currency)`
unfoldable pub find_balance : Option String → List Balance → Option Balance
find_balance none balances = none
find_balance (some currency) [] = none
find_balance (some currency) (b ∷ rest) =
    if str_eq b.currency currency then some b else find_balance (some currency) rest

abbrev pub covers : Option Balance → Money → Bool
covers none amount = false
covers (some b) amount = not (ltb_ℤ b.available amount)

-- `(order.price ?? null) ?? ticker.last`
abbrev pub reference_price : Option Money → Option Money → Attempt Money
reference_price (some p) last = done p
reference_price none (some p) = done p
reference_price none none = thrown no_reference_price

module _ {F : Type 0} where
  abbrev pub taker_of : Option (FeeInfo F) → Option F
  taker_of none = none
  taker_of (some info) = some info.taker

  -- A BUY takes quote, a SELL the base.
  unfoldable pub check_funds : Side → Replies F → NewOrder → List Balance → Attempt (Unit {0})
  check_funds buy r order balances = do
    last ← r.ticker_last
    price ← reference_price order.price last
    throw_if
        (not
          (covers (find_balance (quote_of order.symbol) balances) (Money.mul order.quantity price)))
        insufficient_quote
  check_funds sell r order balances =
      throw_if (not (covers (find_balance (some (base_of order.symbol)) balances) order.quantity))
        insufficient_base

  unfoldable pub assert_sufficient_balance : Replies F → NewOrder → Attempt (Unit {0})
  assert_sufficient_balance r order = r.balances >>= check_funds order.side r order

module _ {F : Type 0} (d : Doubles F) where
  unfoldable pub estimate_quote_fee : Money → Option F → Result Money
  estimate_quote_fee notional none = ok Money.zero
  estimate_quote_fee notional (some taker) =
      if d.is_below_or_zero taker then ok Money.zero else fraction_of d notional taker

  -- The cap on what a BUY may cost, its fee included.
  unfoldable pub check_exposure :
      LiveConfig F → MarketInfo F → Side → Money → Money → Attempt (Unit {0})
  check_exposure cfg market sell quantity price = done tt
  check_exposure cfg market buy quantity price = do
    fee ← lift (estimate_quote_fee (Money.mul quantity price) (taker_of market.fee_info))
    throw_if (ltb_ℤ cfg.max_live_quote_notional (Money.add (Money.mul quantity price) fee))
        above_max_quote

  unfoldable pub validate_order : LiveConfig F → Replies F → NewOrder → Attempt (Unit {0})
  validate_order cfg r order = do
    throw_if (not (is_limit order.order_type)) not_limit
    throw_if (is_given_session cfg.autonomous_live_session && not (is_ioc order.tif)) not_ioc
    throw_if (not (Money.is_positive order.quantity)) quantity_not_positive
    market ← r.market
    throw_if (ltb_ℤ cfg.max_live_base_quantity order.quantity) above_max_base
    quantity_off ← is_off_grid order.quantity market.quantity_tick
    throw_if quantity_off off_quantity_grid
    throw_if (is_below order.quantity market.min_order_base) below_min_base
    price ← positive_price order.price
    price_off ← is_off_grid price market.price_tick
    throw_if price_off off_price_grid
    throw_if (is_below (Money.mul price order.quantity) market.min_order_quote) below_min_quote
    check_exposure cfg market order.side order.quantity price
    assert_sufficient_balance r order
