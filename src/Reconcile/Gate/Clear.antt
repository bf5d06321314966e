-- ===== src/Reconcile/Gate/Clear.antt =====
-- reconcile/preTradeGate.ts: which orders the gate lets through.
use cryptotradingbot.Common.{
  ◌≡◌, refl, ap, Bool, true, inl, inr, List, [], ◌∷◌, ◌++◌, arith, if◌then◌else◌, Bool-cases,
}
use cryptotradingbot.Reconcile.Model.{ReconciliationResult}
use cryptotradingbot.Reconcile.Gate.{
  LivePreTradeAction, Blocker, is_halted, read_failure, unconfirmed_order, unproven_execution,
  ambiguous_hold, operator_finding, balance_mismatch, is_halt, blocked, order_passes,
  execution_passes, reservation_passes, balance_passes, quote_blockers, never, blockers_of, is_nil,
  live_pre_trade_gate,
}
use cryptotradingbot.Reconcile.Gate.Needs.{
  Each, IsConfirmed, IsAttributed, IsSure, IsUnaffected, IsClear, is_settled-IsConfirmed,
  IsConfirmed-is_settled, is_cleared-IsAttributed, IsAttributed-is_cleared, passes-IsSure,
  IsSure-passes, passes-IsUnaffected, IsUnaffected-passes, quote_blockers-nil, nil-quote_blockers,
  is_halt_lem,
}

append-nil : (a b : List Blocker) → is_nil (a ++ b) ≡ true → (a ≡ []) × (is_nil b ≡ true)
append-nil [] b h = (refl, h)
append-nil (x ∷ a) b h = cc

nil : (a : List Blocker) → is_nil a ≡ true → a ≡ []
nil [] h = refl
nil (x ∷ a) h = cc

-- A loop finds nothing where its test decides what every finding must be.
module _ {A : Type 0} (passes : A → Bool) (block : A → Blocker) (P : A → Type 0) where
  blocked-Each :
      ((f : A) → passes f ≡ true → P f) → (fs : List A) → blocked passes block fs ≡ [] → Each P fs
  unfolding blocked
  blocked-Each sound [] h = tt
  blocked-Each sound (f ∷ fs) h = elim (Bool-cases (passes f)) [
    | inl e ↦ (sound f e, blocked-Each sound fs (rw e at h))
    | inr e ↦ absurd (ground (arith, e, h))
  ]

  Each-blocked :
      ((f : A) → P f → passes f ≡ true) → (fs : List A) → Each P fs → blocked passes block fs ≡ []
  unfolding blocked
  Each-blocked whole [] h = refl
  Each-blocked whole (f ∷ fs) h = rw (whole f h.0) (Each-blocked whole fs h.1)

none_pass : {A : Type 0} (block : A → Blocker) (fs : List A) → blocked never block fs ≡ [] → fs ≡ []
unfolding blocked
none_pass block [] h = refl
none_pass block (f ∷ fs) h = cc

IsClear-nil :
    (result : ReconciliationResult) (action : LivePreTradeAction)
    → IsClear result action
    → blockers_of result action ≡ []
unfolding blockers_of
IsClear-nil result action c =
    rw
      (
        is_halt_lem result.status c.not_halted,
        c.reads_whole,
        Each-blocked order_passes unconfirmed_order IsConfirmed IsConfirmed-is_settled
            result.order_findings c.orders_settled,
        Each-blocked execution_passes unproven_execution IsAttributed IsAttributed-is_cleared
            result.execution_findings c.executions_cleared,
        Each-blocked reservation_passes ambiguous_hold IsSure IsSure-passes
            result.reservation_findings c.reservations_sure,
        c.no_operator,
        Each-blocked (balance_passes action) balance_mismatch (IsUnaffected action)
            (IsUnaffected-passes action) result.balance_findings c.balances_agree,
      )
      (nil-quote_blockers action.side action.managed_quote_deployable c.buys_funded)

nil-IsClear :
    (result : ReconciliationResult) (action : LivePreTradeAction)
    → is_nil (blockers_of result action) ≡ true
    → IsClear result action
unfolding blockers_of
nil-IsClear result action h =
    let (a, h1) = append-nil (if is_halt result.status then is_halted ∷ [] else []) _ h in
    let (b, h2) = append-nil (blocked never read_failure result.read_failures) _ h1 in
    let (c, h3) = append-nil (blocked order_passes unconfirmed_order result.order_findings) _ h2 in
    let (d, h4) =
      append-nil (blocked execution_passes unproven_execution result.execution_findings) _ h3 in
    let (e, h5) =
      append-nil (blocked reservation_passes ambiguous_hold result.reservation_findings) _ h4 in
    let (f, h6) = append-nil (blocked never operator_finding result.operator_findings) _ h5 in
    let (g, h7) =
      append-nil (blocked (balance_passes action) balance_mismatch result.balance_findings) _ h6 in
    record {
      not_halted = λ halt. cc (rw halt at a);
      reads_whole = none_pass read_failure result.read_failures b;
      orders_settled =
          blocked-Each order_passes unconfirmed_order IsConfirmed is_settled-IsConfirmed
            result.order_findings c;
      executions_cleared =
          blocked-Each execution_passes unproven_execution IsAttributed is_cleared-IsAttributed
            result.execution_findings d;
      reservations_sure =
          blocked-Each reservation_passes ambiguous_hold IsSure passes-IsSure
            result.reservation_findings e;
      no_operator = none_pass operator_finding result.operator_findings f;
      balances_agree =
          blocked-Each (balance_passes action) balance_mismatch (IsUnaffected action)
            (passes-IsUnaffected action) result.balance_findings g;
      buys_funded =
          quote_blockers-nil action.side action.managed_quote_deployable
            (nil (quote_blockers action.side action.managed_quote_deployable) h7);
    }

-- `livePreTradeGate` allows an order exactly when the reconciliation is not halted and read
-- everything, every order is confirmed at least in part, every execution is uncorrelated or proven
-- with a quote fee, no reservation is ambiguous, the operator has nothing to decide, no balance that
-- the order bears on (the base of a SELL, the quotes for a BUY) disagrees, and a BUY has managed
-- quote to deploy.
pub live_pre_trade_gate-IsClear :
    (result : ReconciliationResult) (action : LivePreTradeAction)
    → ((live_pre_trade_gate result action).allowed ≡ true → IsClear result action)
      × (IsClear result action → (live_pre_trade_gate result action).allowed ≡ true)
unfolding live_pre_trade_gate
live_pre_trade_gate-IsClear result action =
    (nil-IsClear result action, λ c. ap is_nil (IsClear-nil result action c))
