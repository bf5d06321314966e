-- ===== src/Portfolio/Settle/Added.antt =====
-- What `applyLiveFill` of portfolio/Portfolio.ts adds to the executions on record.
use cryptotradingbot.Common.{
  ◌≡◌, ◌∙◌, ◌⊎◌, sym, ap, inl, inr, some, none, String, str_eq, eq_iff, Bool-cases, subst,
}
use cryptotradingbot.Common.Dict.{lookup, lookup-insert}
use cryptotradingbot.Common.Result.{ok, ok-injective}
use cryptotradingbot.Money.{Money}
use cryptotradingbot.Portfolio.Model.{Portfolio, Side, Fill, buy, sell}
use cryptotradingbot.Portfolio.Fill.Frame.{apply_fill-SameLedgers}
use cryptotradingbot.Portfolio.Settle.Execution.{
  pair_reservation, record_applied_execution, non_empty, apply_live_fill,
}
use cryptotradingbot.Portfolio.Settle.Steps.{
  pair_reservation-ok, apply_new_execution-ok, apply_live_fill-ok,
}
use cryptotradingbot.Portfolio.Settle.Kept.{consume_and_release-Kept}
use cryptotradingbot.Portfolio.Settle.Once.{execution_of}

pair_reservation-executions :
    (m : Portfolio) (id : String) (side : Side) (cost : Money) (n : Portfolio)
    → pair_reservation m id side cost ≡ ok n
    → n.applied_executions ≡ m.applied_executions
unfolding pair_reservation
pair_reservation-executions m id sell cost n h =
    ap (λ (x : Portfolio). x.applied_executions) (sym (ok-injective h))
pair_reservation-executions m id buy cost n h = elim (pair_reservation-ok m id cost n h) [
  | inl (_, e) ↦ ap (λ (x : Portfolio). x.applied_executions) e
  | inr (r, a, c) ↦ (consume_and_release-Kept m id r.currency cost n c).applied_executions
]

-- One execution at most is added, the fill's, and none is replaced.
pub apply_live_fill_adds :
    (m : Portfolio) (id symbol : String) (side : Side) (fill : Fill) (n : Portfolio) (key : String)
    → apply_live_fill m id symbol side fill ≡ ok n
    → (lookup key n.applied_executions ≡ lookup key m.applied_executions)
      ⊎ ((non_empty fill.execution_id ≡ some key)
          × (lookup key m.applied_executions ≡ none)
          × (lookup key n.applied_executions ≡ some (execution_of id symbol side fill)))
unfolding record_applied_execution
apply_live_fill_adds m id symbol side fill n key h =
    let (x, given, _, seen_or_new) = apply_live_fill-ok m id symbol side fill n h in
    elim seen_or_new [
      | inl (e, _, _, same) ↦ inl (ap (λ (y : Portfolio). lookup key y.applied_executions) same)
      | inr (absent, new) ↦
          let (filled, paired, h1, h2, e) = apply_new_execution-ok m x id symbol side fill n new in
          let before =
            pair_reservation-executions filled id side _ paired h2
            ∙ (apply_fill-SameLedgers m symbol side _ _ _ _ none filled h1).applied_executions in
          let after =
            ap (λ (y : Portfolio). lookup key y.applied_executions) e
            ∙ lookup-insert x key (execution_of id symbol side fill) paired.applied_executions in
          elim (Bool-cases (str_eq x key)) [
            | inl q ↦ inr (
              given ∙ ap some ((eq_iff x key).0 q),
              subst (λ k. lookup k m.applied_executions ≡ none) ((eq_iff x key).0 q) absent,
              rw q at after,
            )
            | inr q ↦ inl ((rw q at after) ∙ ap (lookup key) before)
          ]
    ]
