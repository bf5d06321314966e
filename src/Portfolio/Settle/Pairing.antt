-- ===== src/Portfolio/Settle/Pairing.antt =====
-- portfolio/Portfolio.ts pairs the cash that a BUY costs with its reservation: the pool and the
-- order give way by exactly the cost.
use cryptotradingbot.Common.{
  ◌≡◌, refl, sym, subst, ◌∙◌, some, String, str_eq, eq_refl, eq_of_some, arith, if◌then◌else◌,
}
use cryptotradingbot.Common.Int.{pos, ◌<ℤ◌, ◌≤ℤ◌, ◌-ℤ◌, neg, int_laws, parts_of_eq}
use cryptotradingbot.Common.Dict.{insert, All-lookup}
use cryptotradingbot.Common.Result.{ok, >>=-eq-ok, ok-injective}
use cryptotradingbot.Money.{Money}
use cryptotradingbot.Portfolio.Model.{Portfolio, OrderReservation}
use cryptotradingbot.Portfolio.Equity.{reserved}
use cryptotradingbot.Portfolio.Reserve.{
  active_reservation, consume_order_reservation, release_quote,
}
use cryptotradingbot.Portfolio.Reserve.Steps.{moved, active_reservation-ok, consume-ok, sub_eq}
use cryptotradingbot.Portfolio.Reserve.Backing.{
  Backed, IsWithin, Change-Backed, consume-Change, share-le-committed, share_of_active,
}
use cryptotradingbot.Portfolio.Settle.Aggregate.{consume_and_release}

-- Within what is reserved a release takes the amount off the pool.
release_quote_within :
    (m : Portfolio) (currency : String) (amount : Money)
    → pos 0 <ℤ amount
    → amount ≤ℤ reserved m currency
    → release_quote m currency amount
      ≡ ok (record m { reserved = moved m.reserved currency (neg amount) })
unfolding release_quote
release_quote_within m currency amount p le = ground (arith, sub_eq (reserved m currency) amount)

-- The pool covers what remains of any active reservation.
remaining-le-reserved :
    (m : Portfolio) (id : String) (r : OrderReservation)
    → Backed m
    → active_reservation m id ≡ some r
    → r.remaining ≤ℤ reserved m r.currency
remaining-le-reserved m id r b a = omega (
  int_laws,
  share-le-committed r.currency id m.order_reservations b.within,
  b.covered r.currency,
  parts_of_eq (share_of_active r.currency m id r a ∙ own_currency r),
)
  where
    own_currency :
        (r : OrderReservation)
        → (if str_eq r.currency r.currency then r.remaining else pos 0) ≡ r.remaining
    own_currency r = rw (eq_refl r.currency)

abbrev consumed : Portfolio → String → OrderReservation → Money → Portfolio
consumed m id r cost = record m {
  order_reservations =
      insert id (record r { remaining = r.remaining -ℤ cost }) m.order_reservations;
}

consume-known :
    (m : Portfolio) (id : String) (cost : Money) (c : Portfolio) (r : OrderReservation)
    → active_reservation m id ≡ some r
    → consume_order_reservation m id cost ≡ ok c
    → (pos 0 <ℤ cost) × (cost ≤ℤ r.remaining) × (c ≡ consumed m id r cost)
consume-known m id cost c r a h =
    let (r', a', p, le, e) = consume-ok m id cost c h in
    subst (λ x. (pos 0 <ℤ cost) × (cost ≤ℤ x.remaining) × (c ≡ consumed m id x cost))
      (eq_of_some (sym a' ∙ a)) (p, le, e)

-- What is left when a cost has been paid out of a reservation.
abbrev pub paid_out : Portfolio → String → OrderReservation → Money → Portfolio
paid_out m id r cost = record m {
  reserved = moved m.reserved r.currency (neg cost);
  order_reservations =
      insert id (record r { remaining = r.remaining -ℤ cost }) m.order_reservations;
}

-- Consuming a reservation and releasing the pool in its currency move both by exactly the cost,
-- which the reservation covers: the release is never the no-op of `releaseQuote`.
pub consume_and_release-ok :
    (m : Portfolio) (id : String) (r : OrderReservation) (cost : Money) (n : Portfolio)
    → Backed m
    → active_reservation m id ≡ some r
    → consume_and_release m id r.currency cost ≡ ok n
    → (pos 0 <ℤ cost) × (cost ≤ℤ r.remaining) × (n ≡ paid_out m id r cost)
unfolding consume_and_release
consume_and_release-ok m id r cost n b a h =
    let (c, h1, h2) = >>=-eq-ok (consume_order_reservation m id cost) _ h in
    let (p, le, e) = consume-known m id cost c r a h1 in
    let covers = remaining-le-reserved m id r b a in
    let runs =
      release_quote_within (consumed m id r cost) r.currency cost p (omega (arith, le, covers)) in
    (p, le, ok-injective (sym (subst (λ x. release_quote x r.currency cost ≡ ok n) e h2) ∙ runs))

pub paid_out-Backed :
    (m : Portfolio) (id : String) (r : OrderReservation) (cost : Money)
    → Backed m
    → active_reservation m id ≡ some r
    → pos 0 <ℤ cost
    → cost ≤ℤ r.remaining
    → Backed (paid_out m id r cost)
paid_out-Backed m id r cost b a p le =
    let (e, s) = active_reservation-ok m id r a in
    let w = All-lookup IsWithin id r m.order_reservations b.within e in
    Change-Backed (consume-Change m id cost (paid_out m id r cost) r a refl refl)
      (record {
        nonneg = omega int_laws;
        capped = omega (int_laws, w.capped);
        closed = λ q. ground (arith, s, q);
      })
      b
