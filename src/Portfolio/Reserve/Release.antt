-- ===== src/Portfolio/Reserve/Release.antt =====
-- portfolio/Portfolio.ts: giving back reserved quote, by order (`releaseOrderReservation`) and by
-- amount (`releaseQuote`).
use cryptotradingbot.Common.{
  ◌≡◌, sym, ◌∙◌, ap, inl, inr, none, some, String, eq_refl, arith, if◌then◌else◌, Option-cases,
}
use cryptotradingbot.Common.Int.{pos, neg, ◌+ℤ◌, ◌-ℤ◌, ◌<ℤ◌, ◌≤ℤ◌, int_laws, parts_of_eq}
use cryptotradingbot.Common.Dict.{Dict, get_or, insert, lookup-insert_self}
use cryptotradingbot.Common.Result.{ok, ◌>>=◌}
use cryptotradingbot.Money.{Money}
use cryptotradingbot.Portfolio.Model.{Portfolio, OrderReservation, released}
use cryptotradingbot.Portfolio.Equity.{reserved}
use cryptotradingbot.Portfolio.Reserve.{
  release_quote, release_order_reservation, active_reservation,
}
use cryptotradingbot.Portfolio.Reserve.Steps.{
  get_or-insert, get_or-moved, release_order-ok, release_order_none, moved, sub_eq,
}

get_or_self : (c : String) (v : Money) (pool : Dict Money) → get_or c (insert c v pool) (pos 0) ≡ v
get_or_self c v pool =
    get_or-insert c c v pool ∙ ap (λ t. if t then v else get_or c pool (pos 0)) (eq_refl c)

-- A release within the pool takes exactly the amount off it.
release_quote-within :
    (m : Portfolio) (c : String) (a : Money)
    → pos 0 <ℤ a
    → a ≤ℤ reserved m c
    → release_quote m c a ≡ ok (record m { reserved = insert c (reserved m c -ℤ a) m.reserved })
unfolding release_quote
release_quote-within m c a p le = ground (arith, p, le)

-- A second release of the same amount is not a no-op while the pool still holds as much: it takes
-- the amount off what is left, which other orders reserved.
pub release_quote_twice :
    (m : Portfolio) (c : String) (a : Money)
    → pos 0 <ℤ a
    → a +ℤ a ≤ℤ reserved m c
    → (n : Portfolio) × ((release_quote m c a >>= λ once. release_quote once c a) ≡ ok n)
      × (reserved n c ≡ reserved m c -ℤ a -ℤ a)
release_quote_twice m c a p le =
    let once = record m { reserved = insert c (reserved m c -ℤ a) m.reserved } in
    let left : reserved once c ≡ reserved m c -ℤ a = get_or_self c (reserved m c -ℤ a) m.reserved in
    let first = release_quote-within m c a p (omega (int_laws, p, le)) in
    let second = release_quote-within once c a p (omega (int_laws, parts_of_eq left, le)) in
    (
      record once { reserved = insert c (reserved once c -ℤ a) once.reserved },
      rw first second,
      get_or_self c (reserved once c -ℤ a) once.reserved ∙ ap (λ x. x -ℤ a) left,
    )

gone : (m : Portfolio) (id : String) → active_reservation (release_order_reservation m id) id ≡ none
gone m id = elim (Option-cases (active_reservation m id)) [
  | inl e ↦ rw (release_order_none m id e) e
  | inr (r, e) ↦ rw (release_order-ok m id r e) (closed r)
]
  where
    closed :
        (r : OrderReservation)
        → active_reservation
            (record m {
              reserved = moved m.reserved r.currency (neg r.remaining);
              order_reservations =
                  insert id
                    (record r { remaining = pos 0; status = released })
                    m.order_reservations;
            })
            id
          ≡ none
    closed r = ground (
      arith,
      lookup-insert_self id (record r { remaining = pos 0; status = released })
          m.order_reservations,
    )

-- `releaseOrderReservation` gives back exactly what an active reservation still holds, once:
-- released again, or released for an order with no active reservation, nothing changes.
pub release_order_reservation_once :
    (m : Portfolio) (id : String)
    → (release_order_reservation (release_order_reservation m id) id
        ≡ release_order_reservation m id)
      × (active_reservation m id ≡ none → release_order_reservation m id ≡ m)
      × ((r : OrderReservation)
          → active_reservation m id ≡ some r
          → reserved (release_order_reservation m id) r.currency
            ≡ reserved m r.currency -ℤ r.remaining)
release_order_reservation_once m id = (
  release_order_none (release_order_reservation m id) id (gone m id),
  release_order_none m id,
  λ r e.
      let moves : get_or r.currency (moved m.reserved r.currency (neg r.remaining)) (pos 0)
          ≡ reserved m r.currency +ℤ neg r.remaining =
        get_or-moved m.reserved r.currency r.currency (neg r.remaining)
        ∙ ap (λ t. reserved m r.currency +ℤ (if t then neg r.remaining else pos 0))
            (eq_refl r.currency) in
      ap (λ (y : Portfolio). reserved y r.currency) (release_order-ok m id r e)
      ∙ moves
      ∙ sym (sub_eq (reserved m r.currency) r.remaining),
)
