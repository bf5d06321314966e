-- ===== src/Execution/Monitor.antt =====
-- execution/LiveOrderMonitor.ts: a cycle that reads unresolved live orders from the exchange and brings
-- the ledger and the managed portfolio up to date.
pub mod Evidence
pub mod Trades
pub mod Cycle
pub mod Ledger
pub mod Backing
pub mod Tested
pub mod Proven
use cryptotradingbot.Common.{
  Bool, true, false, not, ◌&&◌, ◌||◌, Option, none, some, List, [], ◌∷◌, ◌++◌, String, str_eq,
  if◌then◌else◌,
}
use cryptotradingbot.Common.Dict.{Dict, lookup, insert}
use cryptotradingbot.Money
use cryptotradingbot.Portfolio.Model.{Portfolio}
use cryptotradingbot.Portfolio.Ownership.{empty}
use cryptotradingbot.Reconcile.Model.{
  Order, OrderStatus, AccountTrade, created, submitted, open_order, partially_filled, filled,
  canceled, order_rejected, expired, unknown_status, abandoned,
}
use cryptotradingbot.Reconcile.Classify.{ProductIds}
use cryptotradingbot.Execution.Live.Model.{
  Attempt, done, thrown, ledger_corrupt, save_failed, ManagedFile, loaded, corrupt, missing,
  unusable, Engine, saved,
}
use cryptotradingbot.Execution.Live.Submit.{is_live_id}
use cryptotradingbot.Execution.Live.Recover.{lacks_id}
use cryptotradingbot.Execution.Monitor.Trades.{
  LiveMonitorReport, LiveMonitorTransition, MonitorError, status_read_failed, no_longer_exists,
  Progress, process_trades, settle_reservation,
}
use cryptotradingbot.Execution.Monitor.Evidence.{
  is_observed_status, is_observed, observed, OrderEvidence, MonitorReplies, or_no_trades,
  with_error, gather_evidence, ids_of, report_of,
}

-- The exchange's order with what identifies it locally.
abbrev pub adopted : Order → Order → Order
adopted authoritative current = record authoritative {
  client_order_id = current.client_order_id;
  reason = current.reason;
  created_at_ms = current.created_at_ms;
}

abbrev pub same_status : OrderStatus → OrderStatus → Bool
same_status created created = true
same_status submitted submitted = true
same_status open_order open_order = true
same_status partially_filled partially_filled = true
same_status filled filled = true
same_status canceled canceled = true
same_status order_rejected order_rejected = true
same_status expired expired = true
same_status unknown_status unknown_status = true
same_status abandoned abandoned = true
same_status _ _ = false

abbrev pub with_transition : Order → Order → LiveMonitorReport → LiveMonitorReport
with_transition current updated report =
    if same_status updated.order_status current.order_status then report else record report {
      transitions =
          report.transitions
          ++ (record {
            client_order_id = current.client_order_id;
            from = current.order_status;
            to = updated.order_status;
          }
              ∷ []);
    }

-- One order under the lock: the order is saved, then its executions are accounted. The Boolean is false
-- where the save threw.
unfoldable pub follow_order :
    MonitorReplies
    → Dict Order
    → Order
    → OrderEvidence
    → Engine × Progress
    → Bool × (Engine × Progress)
follow_order r current_orders current ev (s, p) =
    let updated = adopted ev.authoritative current in
    if r.order_saved updated
    then (let noted : Progress = record p {
      report = with_transition current updated p.report;
      proven_executed = Money.zero;
    } in
        let accounted = process_trades current_orders current ev.market ev.executions noted in
        (true, (saved updated s, settle_reservation current updated accounted)))
    else (false, (s, p))

unfoldable pub follow_current :
    MonitorReplies
    → Dict Order
    → String
    → Option Order
    → OrderEvidence
    → Engine × Progress
    → Bool × (Engine × Progress)
follow_current r current_orders id none ev (s, p) =
    (true, (s, record p { report = with_error (no_longer_exists id) p.report }))
follow_current r current_orders id (some current) ev state =
    if is_observed_status current.order_status
    then follow_order r current_orders current ev state
    else (true, state)

unfoldable pub follow_evidence :
    MonitorReplies
    → Dict Order
    → String
    → Option OrderEvidence
    → Engine × Progress
    → Bool × (Engine × Progress)
follow_evidence r current_orders id none state = (true, state)
follow_evidence r current_orders id (some ev) state =
    follow_current r current_orders id (lookup id current_orders) ev state

-- The loop of Phase 2 over the orders of Phase 1.
unfoldable pub follow_all :
    MonitorReplies
    → Dict Order
    → Dict OrderEvidence
    → List Order
    → Engine × Progress
    → Bool × (Engine × Progress)
follow_all r current_orders evidence [] state = (true, state)
follow_all r current_orders evidence (o ∷ rest) state =
    let id = o.client_order_id in
    let (went_on, after) = follow_evidence r current_orders id (lookup id evidence) state in
    let others = follow_all r current_orders evidence rest after in
    if went_on then others else (false, after)

-- The portfolio of the file, or an empty one.
abbrev pub starting_portfolio : ManagedFile → Portfolio → Portfolio
starting_portfolio loaded m = m
starting_portfolio _ m = empty [] [] []

abbrev pub is_corrupt : ManagedFile → Bool
is_corrupt corrupt = true
is_corrupt _ = false

unfoldable pub finish :
    MonitorReplies → Bool × (Engine × Progress) → Attempt LiveMonitorReport × Engine
finish r (went_on, (s, p)) =
    if not went_on
    then (thrown save_failed, s)
    else if not p.dirty
    then (done p.report, s)
    else if r.live_saved
    then (done p.report, record s { managed = p.portfolio })
    else (thrown save_failed, s)

abbrev pub start_of : MonitorReplies → Engine → LiveMonitorReport → Progress
start_of r s report = record {
  portfolio = starting_portfolio r.managed_file s.managed;
  dirty = false;
  applied_now = [];
  proven_executed = Money.zero;
  report = report;
}

-- Phase 2, on the state as it is when the lock is taken.
unfoldable pub apply_evidence :
    MonitorReplies
    → List Order
    → Dict OrderEvidence × LiveMonitorReport
    → Engine
    → Attempt LiveMonitorReport × Engine
apply_evidence r unresolved (evidence, report) s =
    if not r.ledger_still_readable || is_corrupt r.managed_file
    then (thrown ledger_corrupt, s)
    else finish r (follow_all r s.orders evidence unresolved (s, start_of r s report))

-- With the orders that Phase 1 found, of which there may be none.
unfoldable pub monitor_orders :
    MonitorReplies → List Order → Engine → Attempt LiveMonitorReport × Engine
monitor_orders r [] s = (done (report_of []), s)
monitor_orders r (o ∷ rest) s =
    apply_evidence r (o ∷ rest) (gather_evidence r (o ∷ rest) ([], report_of (ids_of (o ∷ rest)))) s

-- A cycle: `before` is the ledger that Phase 1 reads, `s` the state under the lock, which others may have
-- changed in between.
unfoldable pub monitor_once :
    MonitorReplies → Dict Order → Engine → Attempt LiveMonitorReport × Engine
monitor_once r before s =
    if not r.ledger_readable
    then (thrown ledger_corrupt, s)
    else monitor_orders r (observed before) s
