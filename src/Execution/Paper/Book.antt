-- ===== src/Execution/Paper/Book.antt =====
-- execution/PaperExecutionEngine.ts: the history of orders, the open ones, and the executed ids.
use Prim.Native.String.{◌++◌ as str_append}
use cryptotradingbot.Common.{ℕ, Option, none, some, List, [], ◌∷◌, ◌++◌, String}
use cryptotradingbot.Common.Dict.{lookup, insert, erase}
use cryptotradingbot.Common.Result.{Result, ok, err}
use cryptotradingbot.Money
use cryptotradingbot.Money.{Money}
use cryptotradingbot.Portfolio.Model.{quote}
use cryptotradingbot.Portfolio.Equity.{include}
use cryptotradingbot.Portfolio.Fill.{apply_fill}
use cryptotradingbot.Execution.Paper.Model.{
  PaperOrderStatus, PaperFill, PaperOrderRequest, PaperOrder, PaperEngine, open_status, canceled,
  rejected, length, get_elem?, set_elem,
}

-- `if (typeof id === 'string' && id.length > 0) this.knownExecutedIds.add(id)`, for each of the ids
unfoldable pub known_after : List String → List String → List String
known_after known [] = known
known_after known (String.[] ∷ rest) = known_after known rest
known_after known (id ∷ rest) = known_after (include id known) rest

unfoldable pub restore_executed_order_ids : List String → PaperEngine → PaperEngine
restore_executed_order_ids ids s = record s {
  known_executed_ids = known_after s.known_executed_ids ids;
}

unfoldable pub with_ids_of : List String → List PaperOrder → List String
with_ids_of ids [] = ids
with_ids_of ids (o ∷ rest) = with_ids_of (include o.client_order_id ids) rest

unfoldable pub executed_order_ids : PaperEngine → List String
executed_order_ids s = with_ids_of s.known_executed_ids s.all_orders

-- `this.allOrders.push(order)`, of the order that `recordOrder` builds
unfoldable pub paper_order :
    PaperOrderRequest
    → PaperOrderStatus
    → List PaperFill
    → Money
    → Option Money
    → Money
    → ℕ
    → PaperOrder
paper_order req status fills filled_quantity average_price fee now_ms = record {
  client_order_id = req.client_order_id;
  symbol = req.symbol;
  side = req.side;
  order_type = req.order_type;
  order_status = status;
  quantity = req.quantity;
  filled_quantity = filled_quantity;
  average_price = average_price;
  price = req.limit_price;
  fills = fills;
  fee = fee;
  reason = req.reason;
  created_at_ms = now_ms;
  updated_at_ms = now_ms;
}

abbrev pub pushed : PaperOrder → PaperEngine → PaperEngine
pushed order s = record s { all_orders = s.all_orders ++ (order ∷ []) }

unfoldable pub reject_order :
    PaperOrderRequest → ℕ → String → PaperEngine → Result PaperOrder × PaperEngine
reject_order req now_ms reason s =
    let plain = paper_order req rejected [] Money.zero none Money.zero now_ms in
    let text = str_append req.reason (str_append " [rejected: " (str_append reason "]")) in
    let order : PaperOrder = record plain { reason = text } in (ok order, pushed order s)

-- The price, the quantity and the fee of a simulated fill.
pub record Execution : Type 0 where
  pub price : Money
  pub quantity : Money
  pub fee : Money

abbrev pub cost_of : Execution → Money
cost_of x = Money.add (Money.mul x.quantity x.price) x.fee

-- The order is recorded with its fill, and then the fill is applied, which may throw.
unfoldable pub fill_order :
    PaperOrderRequest
    → PaperOrderStatus
    → Execution
    → ℕ
    → PaperEngine
    → Result PaperOrder × PaperEngine
fill_order req status x now_ms s =
    let fill : PaperFill = record {
      price = x.price;
      quantity = x.quantity;
      fee = x.fee;
      fee_currency = quote;
      timestamp_ms = now_ms;
    } in
    let order = paper_order req status (fill ∷ []) x.quantity (some x.price) x.fee now_ms in
    elim (apply_fill s.portfolio req.symbol req.side x.quantity x.price x.fee (some now_ms)
      req.entry_anchor_price) [
        | err e ↦ (err e, pushed order s)
        | ok next ↦ (ok order, record (pushed order s) { portfolio = next })
      ]

-- The order rests: it is recorded, and kept under its id. `openOrders` holds the very object that
-- `allOrders` holds, so its place there is what is kept.
unfoldable pub rest_order : PaperOrderRequest → ℕ → PaperEngine → Result PaperOrder × PaperEngine
rest_order req now_ms s =
    let order = paper_order req open_status [] Money.zero none Money.zero now_ms in
    (
      ok order,
      record (pushed order s) {
        open_orders = insert req.client_order_id (length s.all_orders) s.open_orders;
      },
    )

-- A place outside the history, which no state of the engine has, holds no order.
unfoldable pub cancel_at : String → ℕ → Option ℕ → PaperEngine → Option PaperOrder × PaperEngine
cancel_at id now_ms none s = (none, s)
cancel_at id now_ms (some place) s = elim (get_elem? s.all_orders place) [
  | none ↦ (none, s)
  | some order ↦
      let o : PaperOrder = record order { order_status = canceled; updated_at_ms = now_ms } in
      (
        some o,
        record s {
          all_orders = set_elem s.all_orders place o;
          open_orders = erase id s.open_orders;
        },
      )
]

unfoldable pub cancel_order : String → ℕ → PaperEngine → Option PaperOrder × PaperEngine
cancel_order id now_ms s = cancel_at id now_ms (lookup id s.open_orders) s
