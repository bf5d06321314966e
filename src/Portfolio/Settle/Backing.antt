-- ===== src/Portfolio/Settle/Backing.antt =====
-- Every accounting path of portfolio/Portfolio.ts keeps the reservations backed.
use cryptotradingbot.Common.{ℕ, ◌≡◌, subst, inl, inr, Option, none, some, String}
use cryptotradingbot.Common.Result.{ok, ok-injective}
use cryptotradingbot.Money.{Money}
use cryptotradingbot.Portfolio.Model.{Portfolio, OrderReservation, Side, buy, sell, Fill}
use cryptotradingbot.Portfolio.Reserve.{active_reservation}
use cryptotradingbot.Portfolio.Settle.Execution.{
  pair_reservation, record_applied_execution, fill_cost, apply_live_fill,
}
use cryptotradingbot.Portfolio.Settle.Aggregate.{consume_and_release, settle_aggregate}
use cryptotradingbot.Portfolio.Reserve.Backing.{Backed, release_order-Backed}
use cryptotradingbot.Portfolio.Fill.Frame.{SameLedgers, apply_fill-SameLedgers}
use cryptotradingbot.Portfolio.Settle.Steps.{
  pair_reservation-ok, apply_new_execution-ok, apply_live_fill-ok, settle_sell-ok, settle_buy-ok,
}
use cryptotradingbot.Portfolio.Settle.Pairing.{consume_and_release-ok, paid_out-Backed}

fill-Backed : {m n : Portfolio} → SameLedgers m n → Backed m → Backed n
fill-Backed s b = rw (s.reserved, s.order_reservations) b

-- The reservation that a fill leaves is the one before it.
fill-active :
    {m n : Portfolio} (id : String) {r : OrderReservation}
    → SameLedgers m n
    → active_reservation m id ≡ some r
    → active_reservation n id ≡ some r
fill-active id s a = rw s.order_reservations a

consume_and_release-Backed :
    (m : Portfolio) (id : String) (r : OrderReservation) (cost : Money) (n : Portfolio)
    → Backed m
    → active_reservation m id ≡ some r
    → consume_and_release m id r.currency cost ≡ ok n
    → Backed n
consume_and_release-Backed m id r cost n b a h =
    let (p, le, e) = consume_and_release-ok m id r cost n b a h in
    rw e (paid_out-Backed m id r cost b a p le)

pair_reservation-Backed :
    (m : Portfolio) (id : String) (side : Side) (cost : Money) (n : Portfolio)
    → Backed m
    → pair_reservation m id side cost ≡ ok n
    → Backed n
unfolding pair_reservation
pair_reservation-Backed m id sell cost n b h = subst Backed (ok-injective h) b
pair_reservation-Backed m id buy cost n b h = elim (pair_reservation-ok m id cost n h) [
  | inl (_, e) ↦ rw e b
  | inr (r, a, c) ↦ consume_and_release-Backed m id r cost n b a c
]

record_applied_execution-Backed :
    (m : Portfolio) (x id symbol : String) (side : Side) (fill : Fill)
    → Backed m
    → Backed (record_applied_execution m x id symbol side fill)
unfolding record_applied_execution
record_applied_execution-Backed m x id symbol side fill b = b

-- `applyLiveFill` keeps the reservations backed, whether the execution is new or seen before.
pub apply_live_fill-Backed :
    (m : Portfolio) (id symbol : String) (side : Side) (fill : Fill) (n : Portfolio)
    → Backed m
    → apply_live_fill m id symbol side fill ≡ ok n
    → Backed n
apply_live_fill-Backed m id symbol side fill n b h =
    let (x, _, _, seen_or_new) = apply_live_fill-ok m id symbol side fill n h in
    elim seen_or_new [
      | inl (_, _, _, e) ↦ rw e b
      | inr (_, new) ↦
          let (filled, paired, h1, h2, e) = apply_new_execution-ok m x id symbol side fill n new in
          let b1 = fill-Backed (apply_fill-SameLedgers m symbol side _ _ _ _ none filled h1) b in
          rw e (
            record_applied_execution-Backed paired x id symbol side fill
              (pair_reservation-Backed filled id side (fill_cost fill) paired b1 h2))
    ]

-- Settling an order as a whole keeps the reservations backed.
pub settle_aggregate-Backed :
    (m : Portfolio) (id symbol : String) (side : Side) (quantity price fee : Money)
    (now_ms : Option ℕ) (n : Portfolio)
    → Backed m
    → settle_aggregate m id symbol side quantity price fee now_ms ≡ ok n
    → Backed n
settle_aggregate-Backed m id symbol sell quantity price fee now_ms n b h =
    fill-Backed
      (apply_fill-SameLedgers m symbol sell quantity price fee now_ms none n
        (settle_sell-ok m id symbol quantity price fee now_ms n h))
      b
settle_aggregate-Backed m id symbol buy quantity price fee now_ms n b h =
    let (r, filled, paid, a, _, h1, h2, e) =
      settle_buy-ok m id symbol quantity price fee now_ms n h in
    let s = apply_fill-SameLedgers m symbol buy quantity price fee now_ms none filled h1 in
    rw e (
      release_order-Backed paid id
        (consume_and_release-Backed filled id r _ paid (fill-Backed s b) (fill-active id s a) h2))
