-- ===== src/Portfolio/Settle/Steps.antt =====
-- What each accounting path of portfolio/Portfolio.ts has done when it succeeds.
use cryptotradingbot.Common.{
  ℕ, true, false, not, ◌&&◌, ◌≡◌, sym, subst, ◌∙◌, ◌⊎◌, inl, inr, Option, none, some, String,
  Option-cases, arith,
}
use cryptotradingbot.Common.Int.{◌≤ℤ◌}
use cryptotradingbot.Common.Dict.{lookup}
use cryptotradingbot.Common.Result.{
  ok, or_throw, >>=-eq-ok, throw_if-ok, or_throw-ok, ok-injective, no_execution_id,
  bad_fee_currency, no_reservation,
}
use cryptotradingbot.Money
use cryptotradingbot.Money.{Money}
use cryptotradingbot.Portfolio.Model.{
  Portfolio, OrderReservation, AppliedExecution, Side, buy, sell, Fill, is_quote,
}
use cryptotradingbot.Portfolio.Reserve.{active_reservation, release_order_reservation}
use cryptotradingbot.Portfolio.Fill.{apply_fill}
use cryptotradingbot.Portfolio.Settle.Execution.{
  same_execution, pair_reservation, record_applied_execution, fill_cost, apply_new_execution,
  non_empty, apply_live_fill,
}
use cryptotradingbot.Portfolio.Settle.Aggregate.{
  consume_and_release, check_reserved, close_reservation, settle_aggregate,
}

-- Where the reservation is not active a fill is accounted without it.
pub pair_reservation-ok :
    (m : Portfolio) (id : String) (cost : Money) (n : Portfolio)
    → pair_reservation m id buy cost ≡ ok n
    → ((active_reservation m id ≡ none) × (n ≡ m))
      ⊎ ((r : OrderReservation) × (active_reservation m id ≡ some r)
          × (consume_and_release m id r.currency cost ≡ ok n))
unfolding pair_reservation
pair_reservation-ok m id cost n h = elim (Option-cases (active_reservation m id)) [
  | inl e ↦ inl (e, ground (arith, e, h))
  | inr (r, a) ↦ inr (r, a, ground (arith, a, h))
]

pub apply_new_execution-ok :
    (m : Portfolio) (x id symbol : String) (side : Side) (fill : Fill) (n : Portfolio)
    → apply_new_execution m x id symbol side fill ≡ ok n
    → (filled paired : Portfolio) × (apply_fill m symbol side fill.quantity fill.price fill.fee
          fill.timestamp_ms none
        ≡ ok filled)
      × (pair_reservation filled id side (fill_cost fill) ≡ ok paired)
      × (n ≡ record_applied_execution paired x id symbol side fill)
unfolding apply_new_execution
apply_new_execution-ok m x id symbol side fill n h =
    let (filled, h1, h2) =
      >>=-eq-ok (apply_fill m symbol side fill.quantity fill.price fill.fee fill.timestamp_ms none)
        _ h in
    let (paired, h3, h4) = >>=-eq-ok (pair_reservation filled id side (fill_cost fill)) _ h2 in
    (filled, paired, h1, h3, sym (ok-injective h4))

-- A fill that succeeds has an execution id and a fee that is none or in quote; it was applied before,
-- with the same payload, or it is applied now.
pub apply_live_fill-ok :
    (m : Portfolio) (id symbol : String) (side : Side) (fill : Fill) (n : Portfolio)
    → apply_live_fill m id symbol side fill ≡ ok n
    → (x : String) × (non_empty fill.execution_id ≡ some x)
      × ((not (Money.is_zero fill.fee) && not (is_quote fill.fee_currency)) ≡ false)
      × (((e : AppliedExecution) × (lookup x m.applied_executions ≡ some e)
            × (same_execution e id symbol side fill ≡ true)
            × (n ≡ m))
          ⊎ ((lookup x m.applied_executions ≡ none)
              × (apply_new_execution m x id symbol side fill ≡ ok n)))
unfolding apply_live_fill
apply_live_fill-ok m id symbol side fill n h =
    let (x, h1, h2) = >>=-eq-ok (or_throw (non_empty fill.execution_id) no_execution_id) _ h in
    let (h3, h4) =
      throw_if-ok (not (Money.is_zero fill.fee) && not (is_quote fill.fee_currency))
        bad_fee_currency _ h2 in
    (
      x,
      or_throw-ok (non_empty fill.execution_id) no_execution_id h1,
      h3,
      elim (Option-cases (lookup x m.applied_executions)) [
        | inl e ↦ inr (e, ground (arith, e, h4))
        | inr (y, e) ↦ inl (y, e, ground (arith, e, h4), ground (arith, e, h4))
      ],
    )

pub check_reserved-ok :
    (m : Portfolio) (id : String) (cost : Money)
    → check_reserved m id buy cost ≡ ok tt
    → (r : OrderReservation) × (active_reservation m id ≡ some r) × (cost ≤ℤ r.remaining)
unfolding check_reserved
check_reserved-ok m id cost h =
    let (r, h1, h2) = >>=-eq-ok (or_throw (active_reservation m id) no_reservation) _ h in
    (r, or_throw-ok (active_reservation m id) no_reservation h1, ground (arith, h2))

close_reservation-ok :
    (m : Portfolio) (r : OrderReservation) (id : String) (cost : Money) (n : Portfolio)
    → close_reservation m (some r) id cost ≡ ok n
    → (paid : Portfolio) × (consume_and_release m id r.currency cost ≡ ok paid)
      × (n ≡ release_order_reservation paid id)
unfolding close_reservation
close_reservation-ok m r id cost n h =
    let (paid, h1, h2) = >>=-eq-ok (consume_and_release m id r.currency cost) _ h in
    (paid, h1, sym (ok-injective h2))

-- A SELL settles by its fill alone.
pub settle_sell-ok :
    (m : Portfolio) (id symbol : String) (quantity price fee : Money) (now_ms : Option ℕ)
    (n : Portfolio)
    → settle_aggregate m id symbol sell quantity price fee now_ms ≡ ok n
    → apply_fill m symbol sell quantity price fee now_ms none ≡ ok n
unfolding settle_aggregate check_reserved
settle_sell-ok m id symbol quantity price fee now_ms n h =
    let (filled, h1, h2) =
      >>=-eq-ok (apply_fill m symbol sell quantity price fee now_ms none) _ h in
    h1 ∙ h2

-- A BUY settles by its fill, the cost out of its reservation, and the rest of it released.
pub settle_buy-ok :
    (m : Portfolio) (id symbol : String) (quantity price fee : Money) (now_ms : Option ℕ)
    (n : Portfolio)
    → settle_aggregate m id symbol buy quantity price fee now_ms ≡ ok n
    → let cost = Money.add (Money.mul quantity price) fee in
      (r : OrderReservation) × (filled paid : Portfolio) × (active_reservation m id ≡ some r)
      × (cost ≤ℤ r.remaining)
      × (apply_fill m symbol buy quantity price fee now_ms none ≡ ok filled)
      × (consume_and_release filled id r.currency cost ≡ ok paid)
      × (n ≡ release_order_reservation paid id)
unfolding settle_aggregate
settle_buy-ok m id symbol quantity price fee now_ms n h =
    let cost = Money.add (Money.mul quantity price) fee in
    let (u, h1, h2) = >>=-eq-ok (check_reserved m id buy cost) _ h in
    let (r, a, le) = check_reserved-ok m id cost h1 in
    let (filled, h3, h4) =
      >>=-eq-ok (apply_fill m symbol buy quantity price fee now_ms none) _ h2 in
    let (paid, h5, h6) = closes filled r a h4 in (r, filled, paid, a, le, h3, h5, h6)
  where
    closes :
        (filled : Portfolio) (r : OrderReservation)
        → active_reservation m id ≡ some r
        → close_reservation filled
            (active_reservation m id)
            id
            (Money.add (Money.mul quantity price) fee)
          ≡ ok n
        → (paid : Portfolio) × (consume_and_release filled id r.currency
              (Money.add (Money.mul quantity price) fee)
            ≡ ok paid)
          × (n ≡ release_order_reservation paid id)
    closes filled r a h =
        let cost = Money.add (Money.mul quantity price) fee in
        close_reservation-ok filled r id cost n
          (subst (λ o. close_reservation filled o id cost ≡ ok n) a h)
