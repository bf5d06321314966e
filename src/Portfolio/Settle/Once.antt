-- ===== src/Portfolio/Settle/Once.antt =====
-- portfolio/Portfolio.ts accounts every execution, manual intent and attested order once.
use cryptotradingbot.Common.{
  true, ◌≡◌, refl, ap, sym, ◌∙◌, inl, inr, some, String, arith, eq_of_some,
}
use cryptotradingbot.Common.Dict.{lookup}
use cryptotradingbot.Common.Result.{ok}
use cryptotradingbot.Portfolio.Model.{Portfolio, AppliedExecution, Side, buy, sell, Fill}
use cryptotradingbot.Portfolio.Settle.Execution.{
  same_execution, record_applied_execution, non_empty, apply_live_fill,
}
use cryptotradingbot.Common.{eq_iff, eq_refl}
use cryptotradingbot.Common.Int.{eqb_ℤ_refl, eqb_ℤ-eq}
use cryptotradingbot.Common.Dict.{lookup-insert_self}
use cryptotradingbot.Portfolio.Model.{same_side}
use cryptotradingbot.Portfolio.Settle.Steps.{apply_new_execution-ok, apply_live_fill-ok}

-- What the ledger of executions says of a fill.
abbrev pub execution_of : String → String → Side → Fill → AppliedExecution
execution_of id symbol side fill = record {
  order_id = id;
  symbol = symbol;
  side = side;
  quantity = fill.quantity;
  price = fill.price;
  fee = fill.fee;
}

same_side_refl : (s : Side) → same_side s s ≡ true
same_side_refl buy = refl
same_side_refl sell = refl

same_execution_refl :
    (id symbol : String) (side : Side) (fill : Fill)
    → same_execution (execution_of id symbol side fill) id symbol side fill ≡ true
unfolding same_execution
same_execution_refl id symbol side fill = rw (
  eq_refl id,
  eq_refl symbol,
  same_side_refl side,
  eqb_ℤ_refl fill.quantity,
  eqb_ℤ_refl fill.price,
  eqb_ℤ_refl fill.fee,
)

same_side-eq : (s t : Side) → same_side s t ≡ true → s ≡ t
same_side-eq buy buy h = refl
same_side-eq sell sell h = refl
same_side-eq buy sell h = cc
same_side-eq sell buy h = cc

-- The payload that `assertSameExecution` accepts is the one on record.
same_execution-eq :
    (e : AppliedExecution) (id symbol : String) (side : Side) (fill : Fill)
    → same_execution e id symbol side fill ≡ true
    → e ≡ execution_of id symbol side fill
unfolding same_execution
same_execution-eq e id symbol side fill h = ground (
  arith,
  eq_iff e.order_id id,
  eq_iff e.symbol symbol,
  same_side-eq e.side side,
  eqb_ℤ-eq e.quantity fill.quantity,
  eqb_ℤ-eq e.price fill.price,
  eqb_ℤ-eq e.fee fill.fee,
)

recorded :
    (m : Portfolio) (x id symbol : String) (side : Side) (fill : Fill)
    → lookup x (record_applied_execution m x id symbol side fill).applied_executions
      ≡ some (execution_of id symbol side fill)
unfolding record_applied_execution
recorded m x id symbol side fill =
    lookup-insert_self x (execution_of id symbol side fill) m.applied_executions

-- A fill that succeeds leaves its execution on record, with this payload.
pub apply_live_fill-records :
    (m : Portfolio) (id symbol : String) (side : Side) (fill : Fill) (n : Portfolio)
    → apply_live_fill m id symbol side fill ≡ ok n
    → (x : String) × (non_empty fill.execution_id ≡ some x)
      × (lookup x n.applied_executions ≡ some (execution_of id symbol side fill))
apply_live_fill-records m id symbol side fill n h =
    let (x, h1, _, seen_or_new) = apply_live_fill-ok m id symbol side fill n h in
    (
      x,
      h1,
      elim seen_or_new [
        | inl (e, h2, h3, h4) ↦ rw h4 (h2 ∙ ap some (same_execution-eq e id symbol side fill h3))
        | inr (_, new) ↦
            let (filled, paired, _, _, e) = apply_new_execution-ok m x id symbol side fill n new in
            rw e (recorded paired x id symbol side fill)
      ],
    )

-- Once a fill is applied, a fill with the same execution id is accepted only for the same order,
-- symbol and side with the same quantity, price and fee, and then changes nothing.
pub apply_live_fill_once :
    (m : Portfolio) (id symbol : String) (side : Side) (fill : Fill) (n : Portfolio)
    (id' symbol' : String) (side' : Side) (fill' : Fill) (o : Portfolio)
    → apply_live_fill m id symbol side fill ≡ ok n
    → fill'.execution_id ≡ fill.execution_id
    → apply_live_fill n id' symbol' side' fill' ≡ ok o
    → (o ≡ n) × (execution_of id' symbol' side' fill' ≡ execution_of id symbol side fill)
apply_live_fill_once m id symbol side fill n id' symbol' side' fill' o h same h' =
    let (x, e1, l) = apply_live_fill-records m id symbol side fill n h in
    let (x', e2, _, seen_or_new) = apply_live_fill-ok n id' symbol' side' fill' o h' in
    let k : x' ≡ x = eq_of_some (sym e2 ∙ ap non_empty same ∙ e1) in
    let l' : lookup x' n.applied_executions ≡ some (execution_of id symbol side fill) = rw k l in
    elim seen_or_new [
      | inl (e, h2, h3, h4) ↦
          (h4, sym (same_execution-eq e id' symbol' side' fill' h3) ∙ eq_of_some (sym h2 ∙ l'))
      | inr (absent, _) ↦ absurd (cc (l', absent))
    ]

-- A fill that is applied again is accepted and changes nothing.
pub apply_live_fill_repeat :
    (m : Portfolio) (id symbol : String) (side : Side) (fill : Fill) (n : Portfolio)
    → apply_live_fill m id symbol side fill ≡ ok n
    → apply_live_fill n id symbol side fill ≡ ok n
unfolding apply_live_fill
apply_live_fill_repeat m id symbol side fill n h =
    let (_, _, fee_ok, _) = apply_live_fill-ok m id symbol side fill n h in
    let (x, e1, l) = apply_live_fill-records m id symbol side fill n h in
    ground (arith, fee_ok, e1, l, same_execution_refl id symbol side fill)
