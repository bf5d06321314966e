-- ===== src/Execution/Monitor/Trades.antt =====
-- execution/LiveOrderMonitor.ts: the executions of one order, and its reservation.
use cryptotradingbot.Common.{
  Bool, true, false, not, ◌&&◌, Option, none, some, List, [], ◌∷◌, ◌++◌, String, str_eq,
  if◌then◌else◌,
}
use cryptotradingbot.Common.Int.{ltb_ℤ}
use cryptotradingbot.Common.Dict.{Dict, contains}
use cryptotradingbot.Common.Result.{ok, err}
use cryptotradingbot.Money
use cryptotradingbot.Money.{Money}
use cryptotradingbot.Portfolio.Model.{Portfolio, Fill, Side, buy, sell, quote}
use cryptotradingbot.Portfolio.Ids.{quote_of}
use cryptotradingbot.Portfolio.Equity.{member, include}
use cryptotradingbot.Portfolio.Reserve.{
  deployable_quote, active_reservation, release_order_reservation,
}
use cryptotradingbot.Portfolio.Settle.Execution.{apply_live_fill}
use cryptotradingbot.Reconcile.Model.{
  Order, OrderStatus, AccountTrade, CorrelationLevel, proven, Completeness, complete,
  ReservationDisposition, release,
}
use cryptotradingbot.Reconcile.Classify.{
  ProductIds, analyze_completeness, resolve_fee_disposition, is_fee_automatable,
  reservation_disposition,
}
use cryptotradingbot.Reconcile.Correlate.{CorrelationResult, correlate_execution}
use cryptotradingbot.Execution.Live.Recover.{id_or_empty}

pub record LiveMonitorTransition : Type 0 where
  pub client_order_id : String
  pub from : OrderStatus
  pub to : OrderStatus

-- An entry of the report's errors, by its cause.
pub data MonitorError : Type 0 where
  status_read_failed no_longer_exists : String → MonitorError
  exceeds_deployable_quote fill_refused : String → Option String → MonitorError

pub record LiveMonitorReport : Type 0 where
  pub checked_orders : List String
  pub transitions : List LiveMonitorTransition
  pub applied_executions : List (String × Option String)
  pub unresolved : List String
  pub released_reservations : List String
  pub errors : List MonitorError

-- What the loops of a cycle carry along; `proven_executed` starts anew with each order.
pub record Progress : Type 0 where
  pub portfolio : Portfolio
  pub dirty : Bool
  pub applied_now : List String
  pub proven_executed : Money
  pub report : LiveMonitorReport

abbrev pub is_proven : CorrelationLevel → Bool
is_proven proven = true
is_proven _ = false

abbrev pub is_id : Option String → String → Bool
is_id none id = false
is_id (some s) id = str_eq s id

unfoldable pub is_proven_of : CorrelationResult → String → Bool
is_proven_of corr id = is_proven corr.correlation && is_id corr.matched_client_order_id id

abbrev pub fill_of : AccountTrade → Fill
fill_of trade = record {
  price = trade.price;
  quantity = trade.quantity;
  fee = trade.fee;
  fee_currency = quote;
  timestamp_ms = trade.trade_time_ms;
  execution_id = trade.execution_id;
}

abbrev pub quote_or_blank : Option String → String
quote_or_blank none = ""
quote_or_blank (some currency) = currency

-- A BUY with no active reservation that costs more than is deployable.
unfoldable pub lacks_funds : Side → Order → AccountTrade → Portfolio → Bool
lacks_funds sell current trade m = false
lacks_funds buy current trade m = elim (active_reservation m current.client_order_id) [
  | some _ ↦ false
  | none ↦
      ltb_ℤ (deployable_quote m (quote_or_blank (quote_of current.symbol)))
        (Money.add (Money.mul trade.quantity trade.price) trade.fee)
]

abbrev pub with_trade_error : MonitorError → Progress → Progress
with_trade_error e p =
    let report = p.report in
    record p { report = record report { errors = report.errors ++ (e ∷ []) } }

unfoldable pub account_trade : Order → AccountTrade → Progress → Progress
account_trade current trade p =
    elim (apply_live_fill p.portfolio current.client_order_id current.symbol current.side
      (fill_of trade)) [
        | err _ ↦ with_trade_error (fill_refused current.client_order_id trade.execution_id) p
        | ok next ↦
            let report = p.report in
            record p {
              portfolio = next;
              dirty = true;
              applied_now = include (id_or_empty trade.execution_id) p.applied_now;
              report = record report {
                applied_executions =
                    report.applied_executions
                    ++ ((current.client_order_id, trade.execution_id) ∷ []);
              };
            }
      ]

-- A proven trade, which counts as executed whether or not it is accounted.
unfoldable pub process_proven : Order → Option ProductIds → AccountTrade → Progress → Progress
process_proven current market trade p =
    let counted : Progress = record p {
      proven_executed = Money.add p.proven_executed trade.quantity;
    } in
    let id = id_or_empty trade.execution_id in
    if member id p.applied_now
    then counted
    else if contains id p.portfolio.applied_executions
    then counted
    else if not (is_fee_automatable (resolve_fee_disposition trade.fee trade.fee_product_id market))
    then counted
    else if lacks_funds current.side current trade p.portfolio
    then with_trade_error (exceeds_deployable_quote current.client_order_id trade.execution_id)
        counted
    else account_trade current trade counted

unfoldable pub process_trades :
    Dict Order → Order → Option ProductIds → List AccountTrade → Progress → Progress
process_trades current_orders current market [] p = p
process_trades current_orders current market (trade ∷ rest) p =
    process_trades current_orders current market rest (
      if is_proven_of (correlate_execution trade current_orders) current.client_order_id
      then process_proven current market trade p
      else p)

abbrev pub is_complete : Completeness → Bool
is_complete complete = true
is_complete _ = false

abbrev pub is_release : ReservationDisposition → Bool
is_release release = true
is_release _ = false

unfoldable pub settle_reservation : Order → Order → Progress → Progress
settle_reservation current updated p =
    let id = current.client_order_id in
    let held = contains id p.portfolio.order_reservations in
    let completeness = analyze_completeness (some updated.filled_quantity) p.proven_executed in
    let disposition = reservation_disposition (record {
      has_reservation = held;
      exchange_status = some updated.order_status;
      proven_executed = p.proven_executed;
      accounting_complete = is_complete completeness;
    }) in
    if is_release disposition && held
    then (let report = p.report in
        record p {
          portfolio = release_order_reservation p.portfolio id;
          dirty = true;
          report = record report {
            released_reservations = report.released_reservations ++ (id ∷ []);
          };
        })
    else p
