-- ===== src/Execution/Paper.antt =====
-- execution/PaperExecutionEngine.ts and PaperExecutionTypes.ts: orders filled locally, against a
-- reference price. Nothing here sends anything.
pub mod Book
pub mod Model
pub mod Effect
pub mod Solvent
pub mod Identity
pub mod Resting
use Prim.Native.String.{◌++◌ as str_append}
use cryptotradingbot.Common.{
  ℕ, Bool, true, false, not, ◌&&◌, Option, none, some, List, [], ◌∷◌, ◌++◌, String, if◌then◌else◌,
}
use cryptotradingbot.Common.Int.{ltb_ℤ, leb_ℤ}
use cryptotradingbot.Common.Dict.{lookup, insert, erase}
use cryptotradingbot.Common.Result.{Result, ok, err, type_error, ◌>>=◌}
use cryptotradingbot.Money
use cryptotradingbot.Money.{Money}
use cryptotradingbot.Portfolio.Model.{Position, Side, buy, sell, quote}
use cryptotradingbot.Portfolio.Ids.{quote_of}
use cryptotradingbot.Portfolio.Equity.{position, include}
use cryptotradingbot.Portfolio.Reserve.{deployable_quote}
use cryptotradingbot.Portfolio.Fill.{apply_fill}
use cryptotradingbot.Reconcile.Model.{OrderType, limit_order, market_order}
use cryptotradingbot.Risk.Doubles.{Doubles, fraction_divisor}
use cryptotradingbot.Execution.Paper.Model.{
  PaperOrderStatus, PaperFill, PaperOrderRequest, PaperOrder, PaperMarket, PaperExecutionConfig,
  PaperEngine, filled, partially_filled, open_status, canceled, rejected, length, get_elem?,
  set_elem,
}
use cryptotradingbot.Execution.Paper.Book.{
  known_after, restore_executed_order_ids, with_ids_of, executed_order_ids, paper_order, pushed,
  reject_order, Execution, cost_of, fill_order, rest_order, cancel_at, cancel_order,
}

-- `this.portfolio.position(req.symbol)?.quantity ?? Money.zero()`
abbrev pub quantity_or_zero : Option Position → Money
quantity_or_zero none = Money.zero
quantity_or_zero (some p) = p.quantity

-- `!req.limitPrice || !req.limitPrice.isPositive()`, of a limit order
abbrev pub lacks_limit : OrderType → Option Money → Bool
lacks_limit limit_order none = true
lacks_limit limit_order (some price) = not (Money.is_positive price)
lacks_limit market_order price = false

-- `symbol.includes('/')`
abbrev pub has_slash : String → Bool
has_slash symbol = elim (quote_of symbol) [ none ↦ false | some _ ↦ true ]

abbrev pub is_buy : Side → Bool
is_buy buy = true
is_buy sell = false

unfoldable pub validate_order : PaperOrderRequest → Money → Option String
validate_order req position_quantity =
    if not (Money.is_positive req.quantity)
    then some "quantity must be positive"
    else if lacks_limit req.order_type req.limit_price
    then some "limit order requires a positive limit price"
    else if not (has_slash req.symbol)
    then some "invalid symbol"
    else if not (is_buy req.side) && ltb_ℤ position_quantity req.quantity
    then some "SELL quantity exceeds held position"
    else none

-- The text of a BUY refused for what is left to deploy.
abbrev pub overdraws : String
overdraws = "BUY cost exceeds available quote (would overdraw cash)"

abbrev pub quote_or_empty : Option String → String
quote_or_empty none = ""
quote_or_empty (some currency) = currency

unfoldable pub cost_exceeds_deployable : PaperEngine → String → Money → Bool
cost_exceeds_deployable s symbol cost =
    ltb_ℤ (deployable_quote s.portfolio (quote_or_empty (quote_of symbol))) cost

-- `fillQty.compareTo(req.quantity) < 0 ? 'PARTIALLY_FILLED' : 'FILLED'`
abbrev pub status_of : Money → Money → PaperOrderStatus
status_of fill_quantity quantity = if ltb_ℤ fill_quantity quantity then partially_filled else filled

-- `limit.compareTo(offset) >= 0` for a BUY and `<= 0` for a SELL, where `limit` is not undefined.
abbrev pub meets : Side → Option Money → Money → Result Bool
meets side none offset = err type_error
meets buy (some limit) offset = ok (leb_ℤ offset limit)
meets sell (some limit) offset = ok (leb_ℤ limit offset)

abbrev pub offset_of : Side → PaperMarket → Option Money
offset_of buy market = market.ask
offset_of sell market = market.bid

unfoldable pub marketable : PaperOrderRequest → PaperMarket → Result Bool
marketable req market = elim (offset_of req.side market) [
  | none ↦ ok false
  | some offset ↦ meets req.side req.limit_price offset
]

module _ {F : Type 0} (d : Doubles F) (cfg : PaperExecutionConfig F) where
  unfoldable pub exact_fraction : Money → F → Result Money
  exact_fraction money fraction =
      d.billionths fraction >>= λ n. Money.mul_fraction money n fraction_divisor

  -- `1 + (-f)` is `1 - f`.
  abbrev pub slippage_factor : Side → F
  slippage_factor buy = d.one_plus cfg.slippage_fraction
  slippage_factor sell = d.one_minus cfg.slippage_fraction

  unfoldable pub slippage_adjusted : Money → Side → Result Money
  slippage_adjusted reference_price side = exact_fraction reference_price (slippage_factor side)

  unfoldable pub fill_value : Money → Result Money
  fill_value quantity = exact_fraction quantity cfg.fill_fraction

  unfoldable pub fee_on : Money → Result Money
  fee_on notional = exact_fraction notional cfg.fee_fraction

  unfoldable pub simulated : PaperOrderRequest → PaperMarket → Result Execution
  simulated req market = do
    price ← slippage_adjusted market.reference_price req.side
    quantity ← fill_value req.quantity
    fee ← fee_on (Money.mul quantity price)
    ok (record { price = price; quantity = quantity; fee = fee })

  unfoldable pub market_order_with :
      PaperOrderRequest → Result Execution → ℕ → PaperEngine → Result PaperOrder × PaperEngine
  market_order_with req (err e) now_ms s = (err e, s)
  market_order_with req (ok x) now_ms s =
      if is_buy req.side && cost_exceeds_deployable s req.symbol (cost_of x)
      then reject_order req now_ms overdraws s
      else fill_order req filled x now_ms s

  unfoldable pub limit_order_with :
      PaperOrderRequest
      → Result (Bool × Execution)
      → ℕ
      → PaperEngine
      → Result PaperOrder × PaperEngine
  limit_order_with req (err e) now_ms s = (err e, s)
  limit_order_with req (ok (meets_market, x)) now_ms s =
      if is_buy req.side && meets_market && cost_exceeds_deployable s req.symbol (cost_of x)
      then reject_order req now_ms overdraws s
      else if meets_market
      then fill_order req (status_of x.quantity req.quantity) x now_ms s
      else rest_order req now_ms s

  unfoldable pub submit_market_order :
      PaperOrderRequest → PaperMarket → ℕ → PaperEngine → Result PaperOrder × PaperEngine
  submit_market_order req market now_ms s =
      elim (validate_order req (quantity_or_zero (position s.portfolio req.symbol))) [
        | some reason ↦ reject_order req now_ms reason s
        | none ↦ market_order_with req (simulated req market) now_ms s
      ]

  unfoldable pub submit_limit_order :
      PaperOrderRequest → PaperMarket → ℕ → PaperEngine → Result PaperOrder × PaperEngine
  submit_limit_order req market now_ms s =
      elim (validate_order req (quantity_or_zero (position s.portfolio req.symbol))) [
        | some reason ↦ reject_order req now_ms reason s
        | none ↦
            limit_order_with req
              (marketable req market >>= λ m. simulated req market >>= λ x. ok (m, x)) now_ms s
      ]
