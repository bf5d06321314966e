-- ===== src/Execution/Monitor/Backing.antt =====
-- execution/LiveOrderMonitor.ts: what a cycle does to the managed portfolio.
use cryptotradingbot.Common.{
  inl, inr, not, Option, none, some, List, [], ◌∷◌, String, Bool, Option-cases, arith, if_cases,
}
use cryptotradingbot.Common.Dict.{Dict, lookup, contains}
use cryptotradingbot.Common.Result.{Result-cases}
use cryptotradingbot.Portfolio.Model.{Portfolio}
use cryptotradingbot.Portfolio.Equity.{member}
use cryptotradingbot.Portfolio.Ownership.{empty}
use cryptotradingbot.Portfolio.Reserve.Backing.{Backed, committed, release_order-Backed}
use cryptotradingbot.Portfolio.Settle.Execution.{apply_live_fill}
use cryptotradingbot.Portfolio.Settle.Backing.{apply_live_fill-Backed}
use cryptotradingbot.Reconcile.Model.{Order, AccountTrade}
use cryptotradingbot.Reconcile.Classify.{ProductIds, is_fee_automatable, resolve_fee_disposition}
use cryptotradingbot.Reconcile.Correlate.{correlate_execution}
use cryptotradingbot.Execution.Live.Model.{
  Engine, saved, ManagedFile, loaded, corrupt, missing, unusable,
}
use cryptotradingbot.Execution.Live.Recover.{id_or_empty}
use cryptotradingbot.Execution.Monitor.Trades.{
  Progress, fill_of, is_proven_of, lacks_funds, account_trade, process_proven, process_trades,
  settle_reservation,
}
use cryptotradingbot.Execution.Monitor.Cycle.{monitor_once-keeps}
use cryptotradingbot.Execution.Monitor.{
  adopted, starting_portfolio, follow_order, follow_current, follow_evidence, monitor_once,
}
use cryptotradingbot.Execution.Monitor.Evidence.{MonitorReplies, OrderEvidence, is_observed_status}

account_trade-Backed :
    (current : Order) (trade : AccountTrade) (p : Progress)
    → Backed p.portfolio
    → Backed (account_trade current trade p).portfolio
unfolding account_trade
account_trade-Backed current trade p b =
    let applied =
      apply_live_fill p.portfolio current.client_order_id current.symbol current.side
        (fill_of trade) in
    elim (Result-cases applied) [
      | inl (e, f) ↦ rw (f, account_trade) b
      | inr (next, f) ↦
          rw (f, account_trade)
            (apply_live_fill-Backed p.portfolio current.client_order_id current.symbol current.side
              (fill_of trade) next b f)
    ]

process_proven-Backed :
    (current : Order) (market : Option ProductIds) (trade : AccountTrade) (p : Progress)
    → Backed p.portfolio
    → Backed (process_proven current market trade p).portfolio
unfolding process_proven
process_proven-Backed current market trade p b =
    let P : Progress → Type 0 = λ q. Backed q.portfolio in
    let id = id_or_empty trade.execution_id in
    if_cases P (member id p.applied_now) _ _ (λ _. b)
      (λ _.
        if_cases P (contains id p.portfolio.applied_executions) _ _ (λ _. b)
          (λ _.
            if_cases P
              (not (
                is_fee_automatable (resolve_fee_disposition trade.fee trade.fee_product_id market)))
              _ _ (λ _. b)
              (λ _.
                if_cases P (lacks_funds current.side current trade p.portfolio) _ _ (λ _. b)
                  (λ _. account_trade-Backed current trade _ b))))

process_trades-Backed :
    (orders : Dict Order) (current : Order) (market : Option ProductIds)
    (trades : List AccountTrade) (p : Progress)
    → Backed p.portfolio
    → Backed (process_trades orders current market trades p).portfolio
unfolding process_trades
process_trades-Backed orders current market [] p b = b
process_trades-Backed orders current market (trade ∷ rest) p b =
    process_trades-Backed orders current market rest _ (
      if_cases (λ (q : Progress). Backed q.portfolio)
        (is_proven_of (correlate_execution trade orders) current.client_order_id) _ _
        (λ _. process_proven-Backed current market trade p b) (λ _. b))

settle_reservation-Backed :
    (current updated : Order) (p : Progress)
    → Backed p.portfolio
    → Backed (settle_reservation current updated p).portfolio
unfolding settle_reservation
settle_reservation-Backed current updated p b =
    if_cases (λ (q : Progress). Backed q.portfolio) _ _ _
      (λ _. release_order-Backed p.portfolio current.client_order_id b) (λ _. b)

-- The portfolio on disk and the one of the cycle.
abbrev BothBacked : Engine × Progress → Type 0
BothBacked (s, p) = Backed s.managed × Backed p.portfolio

follow_order-BothBacked :
    (r : MonitorReplies) (orders : Dict Order) (current : Order) (ev : OrderEvidence) (s : Engine)
    (p : Progress)
    → BothBacked (s, p)
    → BothBacked (follow_order r orders current ev (s, p)).1
unfolding follow_order saved
follow_order-BothBacked r orders current ev s p (b, c) =
    if_cases (λ (x : Bool × (Engine × Progress)). BothBacked x.1)
      (r.order_saved (adopted ev.authoritative current)) _ _
      (λ _. (
        b,
        settle_reservation-Backed current _ _
            (process_trades-Backed orders current ev.market ev.executions _ c),
      ))
      (λ _. (b, c))

follow_evidence-BothBacked :
    (r : MonitorReplies) (orders : Dict Order) (id : String) (found : Option OrderEvidence)
    (s : Engine) (p : Progress)
    → BothBacked (s, p)
    → BothBacked (follow_evidence r orders id found (s, p)).1
unfolding follow_evidence follow_current
follow_evidence-BothBacked r orders id none s p b = b
follow_evidence-BothBacked r orders id (some ev) s p b = elim (Option-cases (lookup id orders)) [
  | inl e ↦ rw e b
  | inr (current, e) ↦ rw e (
      if_cases (λ (x : Bool × (Engine × Progress)). BothBacked x.1)
        (is_observed_status current.order_status) _ _
        (λ _. follow_order-BothBacked r orders current ev s p b) (λ _. b))
]

empty-Backed : Backed (empty [] [] [])
unfolding empty committed lookup
empty-Backed = record { within = tt; covered = λ c. omega arith }

starting-Backed :
    (file : ManagedFile) (m : Portfolio) → Backed m → Backed (starting_portfolio file m)
starting-Backed loaded m b = b
starting-Backed corrupt m b = empty-Backed
starting-Backed missing m b = empty-Backed
starting-Backed unusable m b = empty-Backed

-- A cycle keeps the reservations of the portfolio on disk backed, whatever the exchange and the disk
-- answer, on every path out of it.
pub monitor_once-Backed :
    (r : MonitorReplies) (before : Dict Order) (s : Engine)
    → Backed s.managed
    → Backed (monitor_once r before s).1.managed
monitor_once-Backed r before s b =
    monitor_once-keeps r before s BothBacked
      (λ id found x g h. follow_evidence-BothBacked r s.orders id found x.0 x.1 h)
      (λ t. Backed t.managed) b (λ x h. h.0) (λ x h. h.1)
      (λ report. (b, starting-Backed r.managed_file s.managed b))
