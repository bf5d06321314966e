-- ===== src/Portfolio/Settle/Execution.antt =====
-- portfolio/Portfolio.ts: `applyLiveFill`, which accounts one execution of an order.
use cryptotradingbot.Common.{Bool, not, ◌&&◌, Option, none, some, String, str_eq, if◌then◌else◌}
use cryptotradingbot.Common.Dict.{lookup, insert}
use cryptotradingbot.Common.Result.{
  Result, ok, err, or_throw, ◌>>=◌, ◌>>◌, throw_if, no_execution_id, bad_fee_currency, conflict,
}
use cryptotradingbot.Money
use cryptotradingbot.Money.{Money}
use cryptotradingbot.Portfolio.Model.{
  Portfolio, Side, buy, sell, Fill, is_quote, AppliedExecution, same_side,
}
use cryptotradingbot.Portfolio.Ids.{is_empty}
use cryptotradingbot.Portfolio.Reserve.{active_reservation}
use cryptotradingbot.Portfolio.Fill.{apply_fill}
use cryptotradingbot.Portfolio.Settle.Aggregate.{consume_and_release}

-- assertSameExecution
unfoldable pub same_execution : AppliedExecution → String → String → Side → Fill → Bool
same_execution existing order_id symbol side fill =
    str_eq existing.order_id order_id
    && str_eq existing.symbol symbol
    && same_side existing.side side
    && Money.equals existing.quantity fill.quantity
    && Money.equals existing.price fill.price
    && Money.equals existing.fee fill.fee

unfoldable pub pair_reservation : Portfolio → String → Side → Money → Result Portfolio
pair_reservation m order_id sell cost = ok m
pair_reservation m order_id buy cost = elim (active_reservation m order_id) [
  | none ↦ ok m
  | some res ↦ consume_and_release m order_id res.currency cost
]

unfoldable pub record_applied_execution :
    Portfolio → String → String → String → Side → Fill → Portfolio
record_applied_execution m execution_id order_id symbol side fill = record m {
  applied_executions =
      insert execution_id
        (record {
          order_id = order_id;
          symbol = symbol;
          side = side;
          quantity = fill.quantity;
          price = fill.price;
          fee = fill.fee;
        })
        m.applied_executions;
}

abbrev pub fill_cost : Fill → Money
fill_cost fill = Money.add (Money.mul fill.quantity fill.price) fill.fee

-- A fill that has not been applied yet.
unfoldable pub apply_new_execution :
    Portfolio → String → String → String → Side → Fill → Result Portfolio
apply_new_execution m execution_id order_id symbol side fill = do
  filled ← apply_fill m symbol side fill.quantity fill.price fill.fee fill.timestamp_ms none
  paired ← pair_reservation filled order_id side (fill_cost fill)
  ok (record_applied_execution paired execution_id order_id symbol side fill)

-- `!executionId`: absent, or the empty text
abbrev pub non_empty : Option String → Option String
non_empty none = none
non_empty (some s) = if is_empty s then none else some s

unfoldable pub apply_live_fill : Portfolio → String → String → Side → Fill → Result Portfolio
apply_live_fill m order_id symbol side fill = do
  execution_id ← or_throw (non_empty fill.execution_id) no_execution_id
  throw_if (not (Money.is_zero fill.fee) && not (is_quote fill.fee_currency)) bad_fee_currency
  elim (lookup execution_id m.applied_executions) [
    | some existing ↦
        if same_execution existing order_id symbol side fill then ok m else err conflict
    | none ↦ apply_new_execution m execution_id order_id symbol side fill
  ]
