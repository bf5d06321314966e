-- ===== src/Execution/Monitor/Evidence.antt =====
-- execution/LiveOrderMonitor.ts: Phase 1, which reads the exchange on every unresolved live order.
use cryptotradingbot.Common.{
  Bool, true, false, ◌&&◌, Option, none, some, List, [], ◌∷◌, ◌++◌, String, if◌then◌else◌,
}
use cryptotradingbot.Common.Dict.{Dict, insert}
use cryptotradingbot.Reconcile.Model.{
  Order, OrderStatus, AccountTrade, created, submitted, open_order, partially_filled, filled,
  canceled, order_rejected, expired, unknown_status, abandoned,
}
use cryptotradingbot.Reconcile.Classify.{ProductIds}
use cryptotradingbot.Execution.Live.Model.{ManagedFile}
use cryptotradingbot.Execution.Live.Submit.{is_live_id}
use cryptotradingbot.Execution.Live.Recover.{lacks_id}
use cryptotradingbot.Execution.Monitor.Trades.{LiveMonitorReport, MonitorError, status_read_failed}

-- UNRESOLVED
unfoldable pub is_observed_status : OrderStatus → Bool
is_observed_status created = false
is_observed_status submitted = true
is_observed_status open_order = true
is_observed_status partially_filled = true
is_observed_status unknown_status = true
is_observed_status filled = false
is_observed_status canceled = false
is_observed_status order_rejected = false
is_observed_status expired = false
is_observed_status abandoned = false

abbrev pub is_observed : Order → Bool
is_observed o = is_live_id o.client_order_id && is_observed_status o.order_status

unfoldable pub observed : Dict Order → List Order
observed [] = []
observed ((k, o) ∷ rest) = if is_observed o then o ∷ observed rest else observed rest

-- Of the market, what resolves the asset of a fee.
pub record OrderEvidence : Type 0 where
  pub authoritative : Order
  pub executions : List AccountTrade
  pub market : Option ProductIds

-- What the exchange and the disk answer during a cycle. A read of the exchange that throws is `none`.
pub record MonitorReplies : Type 0 where
  pub ledger_readable : Bool
  pub order_status_of : Order → Option Order
  pub market_of : Order → Option ProductIds
  pub trades_of : Order → Option (List AccountTrade)
  pub ledger_still_readable : Bool
  pub managed_file : ManagedFile
  pub order_saved : Order → Bool
  pub live_saved : Bool

abbrev pub or_no_trades : Option (List AccountTrade) → List AccountTrade
or_no_trades none = []
or_no_trades (some trades) = trades

abbrev pub with_error : MonitorError → LiveMonitorReport → LiveMonitorReport
with_error e report = record report { errors = report.errors ++ (e ∷ []) }

-- Phase 1: the evidence on each order, and the report so far.
unfoldable pub gather_evidence :
    MonitorReplies
    → List Order
    → Dict OrderEvidence × LiveMonitorReport
    → Dict OrderEvidence × LiveMonitorReport
gather_evidence r [] (evidence, report) = (evidence, report)
gather_evidence r (o ∷ rest) (evidence, report) =
    let id = o.client_order_id in
    let next : Dict OrderEvidence × LiveMonitorReport =
      (if lacks_id o.exchange_order_id
        then (evidence, record report { unresolved = report.unresolved ++ (id ∷ []) })
        else elim (r.order_status_of o) [
          | none ↦ (evidence, with_error (status_read_failed id) report)
          | some authoritative ↦
              let found : OrderEvidence = record {
                authoritative = authoritative;
                executions = or_no_trades (r.trades_of o);
                market = r.market_of o;
              } in
              (insert id found evidence, report)
        ]) in
    gather_evidence r rest next

abbrev pub ids_of : List Order → List String
ids_of [] = []
ids_of (o ∷ rest) = o.client_order_id ∷ ids_of rest

abbrev pub report_of : List String → LiveMonitorReport
report_of ids = record {
  checked_orders = ids;
  transitions = [];
  applied_executions = [];
  unresolved = [];
  released_reservations = [];
  errors = [];
}
