-- ===== src/Execution/Monitor/Proven.antt =====
-- execution/LiveOrderMonitor.ts: which executions a cycle accounts.
use mathlib.Core.List.{Memᴰ}
use mathlib.Core.List.Memᴰ.{head, tail}
use cryptotradingbot.Common.{
  ◌≡◌, ◌⊎◌, refl, sym, ◌∙◌, true, inl, inr, not, Option, none, some, List, [], ◌∷◌, String, Bool,
  Option-cases, arith, if_cases, subst,
}
use cryptotradingbot.Common.Dict.{Dict, lookup, contains}
use cryptotradingbot.Common.Result.{Result-cases}
use cryptotradingbot.Portfolio.Model.{Portfolio, AppliedExecution}
use cryptotradingbot.Portfolio.Equity.{member}
use cryptotradingbot.Portfolio.Settle.Execution.{apply_live_fill}
use cryptotradingbot.Portfolio.Settle.Kept.{release_order-Kept}
use cryptotradingbot.Portfolio.Settle.Added.{apply_live_fill_adds}
use cryptotradingbot.Reconcile.Model.{Order, AccountTrade, proven}
use cryptotradingbot.Reconcile.Classify.QuoteFee.{IsQuoteFee, quote_fee_lem}
use cryptotradingbot.Reconcile.Classify.{ProductIds, is_fee_automatable, resolve_fee_disposition}
use cryptotradingbot.Reconcile.Correlate.{correlate_execution}
use cryptotradingbot.Execution.Live.Model.{Engine, saved, loaded}
use cryptotradingbot.Execution.Live.Recover.{id_or_empty}
use cryptotradingbot.Execution.Monitor.Trades.{
  Progress, fill_of, is_proven_of, lacks_funds, account_trade, process_proven, process_trades,
  settle_reservation,
}
use cryptotradingbot.Execution.Monitor.{
  adopted, starting_portfolio, follow_order, follow_current, follow_evidence, monitor_once,
}
use cryptotradingbot.Execution.Monitor.Evidence.{
  MonitorReplies, OrderEvidence, or_no_trades, is_observed_status, observed,
}
use cryptotradingbot.Execution.Monitor.Cycle.{IsGathered, monitor_once-keeps}
use cryptotradingbot.Execution.Monitor.Tested.{
  non_empty_lem, is_proven_of_level, is_proven_of_match, answered_trades,
}

module _ (r : MonitorReplies) (before orders : Dict Order) where
  -- The execution on record under a key is of a trade that the exchange reported, with that execution id,
  -- proven of an order that is unresolved under the lock, with no fee or a fee in the quote asset of the
  -- market that the exchange reported for that order.
  pub record IsProvenExecution (key : String) (found : Option AppliedExecution) : Type 0 where
    pub order_key : String
    pub current : Order
    pub on_ledger : lookup order_key orders ≡ some current
    pub still_observed : is_observed_status current.order_status ≡ true
    pub source : Order
    pub was_observed : Memᴰ source (observed before)
    pub under_key : source.client_order_id ≡ order_key
    pub trade : AccountTrade
    pub trades : List AccountTrade
    pub answered : r.trades_of source ≡ some trades
    pub reported : Memᴰ trade trades
    pub same_execution_id : trade.execution_id ≡ some key
    pub is_proven : (correlate_execution trade orders).correlation ≡ proven
    pub of_this_order :
        (correlate_execution trade orders).matched_client_order_id ≡ some current.client_order_id
    pub fee_in_quote : IsQuoteFee trade.fee trade.fee_product_id (r.market_of source)
    pub on_record :
        found
        ≡ some (record {
          order_id = current.client_order_id;
          symbol = current.symbol;
          side = current.side;
          quantity = trade.quantity;
          price = trade.price;
          fee = trade.fee;
        })

  -- Since `m`, only such executions were added.
  abbrev pub AddsProven : Portfolio → Portfolio → Type 0
  AddsProven m n =
      (key : String)
      → (lookup key n.applied_executions ≡ lookup key m.applied_executions)
        ⊎ ((lookup key m.applied_executions ≡ none)
            × IsProvenExecution key (lookup key n.applied_executions))

  module _ (m : Portfolio) (order_key : String) (current : Order) (source : Order)
      (from : Memᴰ source (observed before)) (under_key : source.client_order_id ≡ order_key)
      (known : lookup order_key orders ≡ some current)
      (observed : is_observed_status current.order_status ≡ true) where
    absent_before :
        (p : Progress) (key : String)
        → lookup key p.portfolio.applied_executions ≡ none
        → (lookup key p.portfolio.applied_executions ≡ lookup key m.applied_executions)
          ⊎ ((lookup key m.applied_executions ≡ none)
              × IsProvenExecution key (lookup key p.portfolio.applied_executions))
        → lookup key m.applied_executions ≡ none
    absent_before p key absent (inl same) = sym same ∙ absent
    absent_before p key absent (inr (new, x)) = new

    account_trade-AddsProven :
        (trade : AccountTrade) (p : Progress)
        → Memᴰ trade (or_no_trades (r.trades_of source))
        → is_proven_of (correlate_execution trade orders) current.client_order_id ≡ true
        → IsQuoteFee trade.fee trade.fee_product_id (r.market_of source)
        → AddsProven m p.portfolio
        → AddsProven m (account_trade current trade p).portfolio
    unfolding account_trade
    account_trade-AddsProven trade p mem proves quoted b =
        let id = current.client_order_id in
        let applied = apply_live_fill p.portfolio id current.symbol current.side (fill_of trade) in
        elim (Result-cases applied) [
          | inl (e, f) ↦ rw (f, account_trade) b
          | inr (n, f) ↦
              rw (f, account_trade)
                (λ key.
                  elim (apply_live_fill_adds p.portfolio id current.symbol current.side
                    (fill_of trade) n key f) [
                      | inl same ↦ elim (b key) [
                        | inl before ↦ inl (same ∙ before)
                        | inr (new, x) ↦ inr (new, subst (IsProvenExecution key) (sym same) x)
                      ]
                      | inr (given, absent, on_record) ↦ inr (
                        absent_before p key absent (b key),
                        record {
                          order_key = order_key;
                          current = current;
                          on_ledger = known;
                          still_observed = observed;
                          source = source;
                          was_observed = from;
                          under_key = under_key;
                          trade = trade;
                          trades = (answered_trades trade (r.trades_of source) mem).0;
                          answered = (answered_trades trade (r.trades_of source) mem).1;
                          reported = (answered_trades trade (r.trades_of source) mem).2;
                          same_execution_id = non_empty_lem trade.execution_id key given;
                          is_proven =
                              is_proven_of_level (correlate_execution trade orders) id proves;
                          of_this_order =
                              is_proven_of_match (correlate_execution trade orders) id proves;
                          fee_in_quote = quoted;
                          on_record = on_record;
                        },
                      )
                    ])
        ]

    process_proven-AddsProven :
        (trade : AccountTrade) (p : Progress)
        → Memᴰ trade (or_no_trades (r.trades_of source))
        → is_proven_of (correlate_execution trade orders) current.client_order_id ≡ true
        → AddsProven m p.portfolio
        → AddsProven m (process_proven current (r.market_of source) trade p).portfolio
    unfolding process_proven
    process_proven-AddsProven trade p mem proves b =
        let P : Progress → Type 0 = λ q. AddsProven m q.portfolio in
        let id = id_or_empty trade.execution_id in
        let quoted =
          is_fee_automatable
            (resolve_fee_disposition trade.fee trade.fee_product_id (r.market_of source)) in
        if_cases P (member id p.applied_now) _ _ (λ _. b)
          (λ _.
            if_cases P (contains id p.portfolio.applied_executions) _ _ (λ _. b)
              (λ _.
                if_cases P (not quoted) _ _ (λ _. b)
                  (λ q.
                    if_cases P (lacks_funds current.side current trade p.portfolio) _ _ (λ _. b)
                      (λ _.
                        account_trade-AddsProven trade _ mem proves
                          (quote_fee_lem trade.fee trade.fee_product_id (r.market_of source)
                            (ground (arith, q)))
                          b))))

    process_trades-AddsProven :
        (trades : List AccountTrade) (p : Progress)
        → ((t : AccountTrade) → Memᴰ t trades → Memᴰ t (or_no_trades (r.trades_of source)))
        → AddsProven m p.portfolio
        → AddsProven m (process_trades orders current (r.market_of source) trades p).portfolio
    unfolding process_trades
    process_trades-AddsProven [] p mem b = b
    process_trades-AddsProven (trade ∷ rest) p mem b =
        process_trades-AddsProven rest _ (λ t h. mem t (tail h))
          (if_cases (λ (q : Progress). AddsProven m q.portfolio)
            (is_proven_of (correlate_execution trade orders) current.client_order_id) _ _
            (λ proven. process_proven-AddsProven trade p (mem trade (head refl)) proven b) (λ _. b))

    gathered_trades-AddsProven :
        (market : Option ProductIds) (trades : List AccountTrade) (p : Progress)
        → market ≡ r.market_of source
        → ((t : AccountTrade) → Memᴰ t trades → Memᴰ t (or_no_trades (r.trades_of source)))
        → AddsProven m p.portfolio
        → AddsProven m (process_trades orders current market trades p).portfolio
    gathered_trades-AddsProven market trades p e mem b =
        subst (λ ids. AddsProven m (process_trades orders current ids trades p).portfolio) (sym e)
          (process_trades-AddsProven trades p mem b)

  settle_reservation-AddsProven :
      (m : Portfolio) (current updated : Order) (p : Progress)
      → AddsProven m p.portfolio
      → AddsProven m (settle_reservation current updated p).portfolio
  unfolding settle_reservation
  settle_reservation-AddsProven m current updated p b =
      let kept = (release_order-Kept p.portfolio current.client_order_id).applied_executions in
      if_cases (λ (q : Progress). AddsProven m q.portfolio) _ _ _
        (λ _ key.
          subst
            (λ d.
              (lookup key d ≡ lookup key m.applied_executions)
              ⊎ ((lookup key m.applied_executions ≡ none) × IsProvenExecution key (lookup key d)))
            (sym kept) (b key))
        (λ _. b)

  -- The portfolio on disk and the one of the cycle.
  abbrev BothAddProven : Portfolio → Engine × Progress → Type 0
  BothAddProven m (s, p) = AddsProven m s.managed × AddsProven m p.portfolio

  follow_order-BothAddProven :
      (m : Portfolio) (order_key : String) (current : Order) (ev : OrderEvidence) (s : Engine)
      (p : Progress)
      → lookup order_key orders ≡ some current
      → is_observed_status current.order_status ≡ true
      → IsGathered r before order_key ev
      → BothAddProven m (s, p)
      → BothAddProven m (follow_order r orders current ev (s, p)).1
  unfolding follow_order saved
  follow_order-BothAddProven m order_key current ev s p known observed g (b, c) =
      if_cases (λ (x : Bool × (Engine × Progress)). BothAddProven m x.1)
        (r.order_saved (adopted ev.authoritative current)) _ _
        (λ _. (
          b,
          settle_reservation-AddsProven m current _ _ (
              gathered_trades-AddsProven m order_key current g.source g.was_observed g.under_id
                known observed ev.market ev.executions _ g.its_market
                (λ t h. subst (Memᴰ t) g.its_trades h) c),
        ))
        (λ _. (b, c))

  follow_evidence-BothAddProven :
      (m : Portfolio) (id : String) (found : Option OrderEvidence) (s : Engine) (p : Progress)
      → ((ev : OrderEvidence) → found ≡ some ev → IsGathered r before id ev)
      → BothAddProven m (s, p)
      → BothAddProven m (follow_evidence r orders id found (s, p)).1
  unfolding follow_evidence follow_current
  follow_evidence-BothAddProven m id none s p gathered b = b
  follow_evidence-BothAddProven m id (some ev) s p gathered b =
      elim (Option-cases (lookup id orders)) [
        | inl e ↦ rw e b
        | inr (current, e) ↦ rw e (
            if_cases (λ (x : Bool × (Engine × Progress)). BothAddProven m x.1)
              (is_observed_status current.order_status) _ _
              (λ observed.
                follow_order-BothAddProven m id current ev s p e observed (gathered ev refl) b)
              (λ _. b))
      ]

-- Where the managed portfolio on disk loads, a cycle replaces and drops no execution that it has on record,
-- and every one that it adds is of a trade that the exchange reported in the cycle, for an order with the
-- same client order id that the ledger had as unresolved when the cycle began, with the trade's execution id,
-- quantity, price and fee. The fee is zero, or positive in the quote asset of the market that the exchange
-- reported for that order. correlateExecution proves the trade of the order that it is recorded for, which
-- the ledger under the lock has as unresolved.
pub monitor_once-AddsProven :
    (r : MonitorReplies) (before : Dict Order) (s : Engine)
    → r.managed_file ≡ loaded
    → AddsProven r before s.orders s.managed (monitor_once r before s).1.managed
monitor_once-AddsProven r before s loads =
    let Since : Portfolio → Type 0 = AddsProven r before s.orders s.managed in
    let unchanged : Since s.managed = λ key. inl refl in
    let at_start : (starting_portfolio r.managed_file s.managed) ≡ s.managed = rw loads refl in
    monitor_once-keeps r before s (BothAddProven r before s.orders s.managed)
      (λ id found x gathered h.
        follow_evidence-BothAddProven r before s.orders s.managed id found x.0 x.1 gathered h)
      (λ t. Since t.managed) unchanged (λ x h. h.0) (λ x h. h.1)
      (λ report. (unchanged, subst Since (sym at_start) unchanged))
