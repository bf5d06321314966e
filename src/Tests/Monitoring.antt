-- ===== src/Tests/Monitoring.antt =====
-- execution/LiveOrderMonitor.ts on the order 77, which the exchange reports as filled.
use cryptotradingbot.Money
use cryptotradingbot.Common.{◌∷◌, arith, eq_iff, ◌≡◌, refl, true, none, some, [], Option}
use cryptotradingbot.Common.Int.{quot, ◌+ℤ◌, ◌-ℤ◌, ◌*ℤ◌}
use cryptotradingbot.Common.Dict.{lookup, insert}
use cryptotradingbot.Reconcile.Model.{Order, OrderStatus, filled}
use cryptotradingbot.Reconcile.Classify.{
  resolve_fee_disposition, is_fee_automatable, analyze_completeness, reservation_disposition,
}
use cryptotradingbot.Execution.Live.Model.{Engine, saved, loaded}
use cryptotradingbot.Execution.Live.Submit.{starts_with, is_live_id}
use cryptotradingbot.Execution.Live.Recover.{lacks_id}
use cryptotradingbot.Execution.Live.Recover.Attach.{IsNamed}
use cryptotradingbot.Execution.Monitor.Trades.{
  fill_of, is_proven_of, lacks_funds, account_trade, process_proven, process_trades,
  settle_reservation,
}
use cryptotradingbot.Execution.Monitor.{
  follow_order, follow_current, follow_evidence, follow_all, finish, apply_evidence, monitor_orders,
  monitor_once,
}
use cryptotradingbot.Execution.Monitor.Evidence.{
  MonitorReplies, is_observed_status, observed, gather_evidence,
}
use cryptotradingbot.Execution.Monitor.Ledger.{Follows, monitor_once-Follows}
use cryptotradingbot.Execution.Monitor.Backing.{monitor_once-Backed}
use cryptotradingbot.Portfolio.Reserve.Backing.{Backed}
use cryptotradingbot.Execution.Monitor.Proven.{AddsProven, monitor_once-AddsProven}
use cryptotradingbot.Portfolio.Model.{buy}
use cryptotradingbot.Portfolio.Ids.{
  base_of, quote_of, same_external_order_id, same_order, is_number, number, number_from,
  only_digits,
}
use cryptotradingbot.Portfolio.Equity.{member, include, track_peak, equity_of, add_cash, add_cost}
use cryptotradingbot.Portfolio.Ownership.{source_breakdown_of}
use cryptotradingbot.Portfolio.Reserve.{deployable_quote}
use cryptotradingbot.Portfolio.Fill.{quote_cash, bought_position, apply_buy, apply_fill}
use cryptotradingbot.Portfolio.Settle.Execution.{
  apply_live_fill, apply_new_execution, pair_reservation, record_applied_execution,
}
use cryptotradingbot.Portfolio.Settle.Once.{execution_of}
use cryptotradingbot.Reconcile.Correlate.{correlate_execution, matching, is_unusable, matches_order}
use cryptotradingbot.Tests.Evidence.{trade}
use cryptotradingbot.Tests.Data.{book}
use cryptotradingbot.Tests.Orders.{book-Backed}
use cryptotradingbot.Tests.Recoveries.{filled_77, after_sending}

-- The status is read, the trades are not.
abbrev no_trades : MonitorReplies
no_trades = record {
  ledger_readable = true;
  order_status_of = λ o. some filled_77;
  market_of = λ o. none;
  trades_of = λ o. none;
  ledger_still_readable = true;
  managed_file = loaded;
  order_saved = λ o. true;
  live_saved = true;
}

abbrev after_cycle : Engine
after_cycle = (monitor_once no_trades after_sending.orders after_sending).1

abbrev recorded_status : Option Order → Option OrderStatus
recorded_status none = none
recorded_status (some o) = some o.order_status

-- The order is filled on the ledger and no longer observed, with nothing accounted.
filled_unaccounted :
    (recorded_status (lookup "live-BTCCAD-u1" after_cycle.orders) ≡ some filled)
    × (observed after_cycle.orders ≡ [])
    × (after_cycle.managed ≡ book)
unfolding lookup insert saved starts_with is_live_id lacks_id is_observed_status observed
    gather_evidence follow_order follow_current follow_evidence follow_all finish apply_evidence
    monitor_orders monitor_once process_trades settle_reservation analyze_completeness
    reservation_disposition ◌+ℤ◌ ◌-ℤ◌ ◌*ℤ◌
filled_unaccounted = (refl, refl, refl)

after_sending-IsNamed : IsNamed after_sending.orders
unfolding lookup
after_sending-IsNamed = λ i a l. ground (arith, l, eq_iff "live-BTCCAD-u1" i)

monitor_once-Follows_example : Follows after_sending.orders after_cycle.orders
monitor_once-Follows_example =
    monitor_once-Follows no_trades after_sending.orders after_sending after_sending-IsNamed

monitor_once-Backed_example : Backed after_cycle.managed
monitor_once-Backed_example =
    monitor_once-Backed no_trades after_sending.orders after_sending book-Backed

-- The exchange reports one of the two coins as traded.
abbrev one_trade : MonitorReplies
one_trade = record no_trades { trades_of = λ o. some (trade ∷ []) }

abbrev after_trade : Engine
after_trade = (monitor_once one_trade after_sending.orders after_sending).1

trade_accounted :
    lookup "x1" after_trade.managed.applied_executions
    ≡ some (execution_of "live-BTCCAD-u1" "BTC/CAD" buy (fill_of trade))
unfolding lookup insert saved starts_with is_live_id lacks_id is_observed_status observed
    gather_evidence follow_order follow_current follow_evidence follow_all finish apply_evidence
    monitor_orders monitor_once process_trades process_proven account_trade lacks_funds is_proven_of
    settle_reservation analyze_completeness reservation_disposition correlate_execution
    matches_order matching is_unusable same_external_order_id same_order is_number number
    number_from only_digits resolve_fee_disposition is_fee_automatable apply_live_fill
    apply_new_execution pair_reservation record_applied_execution apply_fill apply_buy
    bought_position quote_cash quote_of base_of deployable_quote track_peak equity_of add_cash
    add_cost member include source_breakdown_of Money.mul Money.half_up Money.div ◌+ℤ◌ ◌-ℤ◌ ◌*ℤ◌
    quot
trade_accounted = refl

monitor_once-AddsProven_example :
    AddsProven one_trade after_sending.orders after_sending.orders book after_trade.managed
monitor_once-AddsProven_example =
    monitor_once-AddsProven one_trade after_sending.orders after_sending refl
