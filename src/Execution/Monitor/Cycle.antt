-- ===== src/Execution/Monitor/Cycle.antt =====
-- execution/LiveOrderMonitor.ts: what every step of a cycle keeps, the cycle keeps.
use mathlib.Core.List.{Memᴰ}
use mathlib.Core.List.Memᴰ.{head, tail}
use cryptotradingbot.Common.{
  ◌≡◌, refl, some, Bool-cases, sym, ◌∙◌, subst, inl, inr, str_eq, Option-cases, eq_of_some, not,
  ◌||◌, Option, List, [], ◌∷◌, String, Bool, if_cases, eq_iff,
}
use cryptotradingbot.Common.Dict.{Dict, lookup, insert, lookup-insert}
use cryptotradingbot.Reconcile.Model.{Order}
use cryptotradingbot.Execution.Live.Model.{Attempt, Engine}
use cryptotradingbot.Execution.Live.Recover.{lacks_id}
use cryptotradingbot.Execution.Monitor.Trades.{LiveMonitorReport, Progress}
use cryptotradingbot.Execution.Monitor.{
  is_corrupt, start_of, follow_evidence, follow_all, finish, apply_evidence, monitor_orders,
  monitor_once,
}
use cryptotradingbot.Execution.Monitor.Evidence.{
  MonitorReplies, gather_evidence, or_no_trades, OrderEvidence, observed,
}

-- Evidence under an id, with the trades and the market that the exchange answered for an order with that
-- id, which the ledger had before as unresolved.
pub record IsGathered (r : MonitorReplies) (before : Dict Order) (id : String) (ev : OrderEvidence)
    : Type 0 where
  pub source : Order
  pub was_observed : Memᴰ source (observed before)
  pub under_id : source.client_order_id ≡ id
  pub its_trades : ev.executions ≡ or_no_trades (r.trades_of source)
  pub its_market : ev.market ≡ r.market_of source

abbrev EachGathered : MonitorReplies → Dict Order → Dict OrderEvidence → Type 0
EachGathered r before evidence =
    (id : String) (ev : OrderEvidence) → lookup id evidence ≡ some ev → IsGathered r before id ev

nothing_found : (id : String) (ev : OrderEvidence) → lookup id [] ≡ some ev → ⊥
unfolding lookup
nothing_found id ev l = cc

gathered-insert :
    (r : MonitorReplies) (before : Dict Order) (key : String) (new : OrderEvidence)
    (evidence : Dict OrderEvidence)
    → IsGathered r before key new
    → EachGathered r before evidence
    → EachGathered r before (insert key new evidence)
gathered-insert r before key new evidence g each id ev l =
    let after = sym (lookup-insert key id new evidence) ∙ l in
    elim (Bool-cases (str_eq key id)) [
      | inl e ↦
          subst (λ k. IsGathered r before k ev) ((eq_iff key id).0 e)
            (subst (IsGathered r before key) (eq_of_some (rw e at after)) g)
      | inr e ↦ each id ev (rw e at after)
    ]

gather_evidence-EachGathered :
    (r : MonitorReplies) (before : Dict Order) (os : List Order) (evidence : Dict OrderEvidence)
    (report : LiveMonitorReport)
    → ((o : Order) → Memᴰ o os → Memᴰ o (observed before))
    → EachGathered r before evidence
    → EachGathered r before (gather_evidence r os (evidence, report)).0
unfolding gather_evidence
gather_evidence-EachGathered r before [] evidence report mem each = each
gather_evidence-EachGathered r before (o ∷ rest) evidence report mem each =
    let later = λ (t : Order) (m : Memᴰ t rest). mem t (tail m) in
    elim (Bool-cases (lacks_id o.exchange_order_id)) [
      | inl lacks ↦
          rw (lacks, gather_evidence)
            (gather_evidence-EachGathered r before rest evidence _ later each)
      | inr has ↦ elim (Option-cases (r.order_status_of o)) [
        | inl e ↦
            rw (has, e, gather_evidence)
              (gather_evidence-EachGathered r before rest evidence _ later each)
        | inr (authoritative, e) ↦
            rw (has, e, gather_evidence)
              (gather_evidence-EachGathered r before rest _ report later (
                gathered-insert r before o.client_order_id _ evidence
                  (record {
                    source = o;
                    was_observed = mem o (head refl);
                    under_id = refl;
                    its_trades = refl;
                    its_market = refl;
                  })
                  each))
      ]
    ]

module _ (r : MonitorReplies) (before : Dict Order) (s : Engine) (P : Engine × Progress → Type 0)
    (step : (id : String) (found : Option OrderEvidence) (x : Engine × Progress)
      → ((ev : OrderEvidence) → found ≡ some ev → IsGathered r before id ev)
      → P x
      → P (follow_evidence r s.orders id found x).1) where
  follow_all-keeps :
      (evidence : Dict OrderEvidence) (unresolved : List Order) (x : Engine × Progress)
      → EachGathered r before evidence
      → P x
      → P (follow_all r s.orders evidence unresolved x).1
  unfolding follow_all
  follow_all-keeps evidence [] x each p = p
  follow_all-keeps evidence (o ∷ rest) x each p =
      let id = o.client_order_id in
      let (went_on, after) = follow_evidence r s.orders id (lookup id evidence) x in
      let kept = step id (lookup id evidence) x (each id) p in
      if_cases (λ (y : Bool × (Engine × Progress)). P y.1) went_on _ _
        (λ _. follow_all-keeps evidence rest after each kept) (λ _. kept)

  -- A property of the state at the end, which is the one at the start, or one that the steps leave, with
  -- the portfolio on disk as it was or replaced by theirs.
  module _ (Q : Engine → Type 0) (at_start : Q s)
      (unwritten : (x : Engine × Progress) → P x → Q x.0)
      (rewritten : (x : Engine × Progress) → P x → Q (record x.0 { managed = x.1.portfolio }))
      (starts : (report : LiveMonitorReport) → P (s, start_of r s report)) where
    finish-keeps : (y : Bool × (Engine × Progress)) → P y.1 → Q (finish r y).1
    unfolding finish
    finish-keeps (went_on, (t, p)) h =
        let R : Attempt LiveMonitorReport × Engine → Type 0 = λ a. Q a.1 in
        if_cases R (not went_on) _ _ (λ _. unwritten (t, p) h)
          (λ _.
            if_cases R (not p.dirty) _ _ (λ _. unwritten (t, p) h)
              (λ _.
                if_cases R r.live_saved _ _ (λ _. rewritten (t, p) h) (λ _. unwritten (t, p) h)))

    apply_evidence-keeps :
        (unresolved : List Order) (found : Dict OrderEvidence × LiveMonitorReport)
        → EachGathered r before found.0
        → Q (apply_evidence r unresolved found s).1
    unfolding apply_evidence
    apply_evidence-keeps unresolved (evidence, report) each =
        if_cases (λ (a : Attempt LiveMonitorReport × Engine). Q a.1)
          (not r.ledger_still_readable || is_corrupt r.managed_file) _ _ (λ _. at_start)
          (λ _.
            finish-keeps _
              (follow_all-keeps evidence unresolved (s, start_of r s report) each (starts report)))

    monitor_orders-keeps :
        (unresolved : List Order)
        → ((o : Order) → Memᴰ o unresolved → Memᴰ o (observed before))
        → Q (monitor_orders r unresolved s).1
    unfolding monitor_orders
    monitor_orders-keeps [] mem = at_start
    monitor_orders-keeps (o ∷ rest) mem = apply_evidence-keeps (o ∷ rest) _ (
        gather_evidence-EachGathered r before (o ∷ rest) [] _ mem
          (λ id ev l. absurd (nothing_found id ev l)))

    pub monitor_once-keeps : Q (monitor_once r before s).1
    unfolding monitor_once
    monitor_once-keeps =
        if_cases (λ (a : Attempt LiveMonitorReport × Engine). Q a.1) (not r.ledger_readable) _ _
          (λ _. at_start) (λ _. monitor_orders-keeps (observed before) (λ o m. m))
