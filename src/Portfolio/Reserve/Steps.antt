-- ===== src/Portfolio/Reserve/Steps.antt =====
-- What each successful operation on reservations in portfolio/Portfolio.ts has done.
use cryptotradingbot.Common.{
  ◌||◌, ◌≡◌, ap, sym, ◌⊎◌, inl, inr, none, some, String, str_eq, eq_iff, Option-cases, Bool-cases,
  arith, if◌then◌else◌,
}
use cryptotradingbot.Common.Int.{pos, ◌<ℤ◌, ◌≤ℤ◌, ◌+ℤ◌, ◌-ℤ◌, neg, ltb_ℤ, int_laws}
use cryptotradingbot.Common.Dict.{Dict, lookup, contains, get_or, insert, lookup-insert}
use cryptotradingbot.Common.Result.{
  ok, or_throw, >>=-eq-ok, throw_if-ok, or_throw-ok, ok-injective, bad_amount, exceeds_deployable,
  already_reserved, no_reservation, exceeds_reservation,
}
use cryptotradingbot.Money
use cryptotradingbot.Money.{Money}
use cryptotradingbot.Portfolio.Model.{Portfolio, OrderReservation, active, released}
use cryptotradingbot.Portfolio.Reserve.{
  deployable_quote, reserve_quote, reserve_order, active_reservation, consume_order_reservation,
  release_order_reservation,
}

-- One entry of the pool replaced.
pub get_or-insert :
    (k c : String) (v : Money) (pool : Dict Money)
    → get_or c (insert k v pool) (pos 0) ≡ (if str_eq k c then v else get_or c pool (pos 0))
get_or-insert k c v pool = ground (arith, lookup-insert k c v pool)

-- The pool with one entry moved by `delta`.
abbrev pub moved : Dict Money → String → Money → Dict Money
moved pool currency delta = insert currency (get_or currency pool (pos 0) +ℤ delta) pool

pub get_or-moved :
    (pool : Dict Money) (k c : String) (delta : Money)
    → get_or c (moved pool k delta) (pos 0)
      ≡ get_or c pool (pos 0) +ℤ (if str_eq k c then delta else pos 0)
get_or-moved pool k c delta = elim (Bool-cases (str_eq k c)) [
  | inl e ↦
      rw (get_or-insert k c (get_or k pool (pos 0) +ℤ delta) pool, e)
        (ap (λ x. get_or x pool (pos 0) +ℤ delta) ((eq_iff k c).0 e))
  | inr e ↦ rw (get_or-insert k c (get_or k pool (pos 0) +ℤ delta) pool, e) (omega int_laws)
]

-- Quote reserved for no order moves the pool up, within what is deployable.
pub reserve_quote-ok :
    (m : Portfolio) (currency : String) (amount : Money) (n : Portfolio)
    → reserve_quote m currency amount ≡ ok n
    → ((amount ≡ pos 0) × (n ≡ m))
      ⊎ ((pos 0 <ℤ amount)
          × (amount ≤ℤ deployable_quote m currency)
          × (n ≡ record m { reserved = moved m.reserved currency amount }))
unfolding reserve_quote
reserve_quote-ok m currency amount n h = elim (Bool-cases (Money.is_zero amount)) [
  | inl z ↦ inl (ground (arith, z), ground (arith, h, z))
  | inr nz ↦
      let (h1, h2) =
        throw_if-ok (Money.is_negative amount) bad_amount _ (rw (nz, reserve_quote) at h) in
      let (h3, h4) =
        throw_if-ok (ltb_ℤ (deployable_quote m currency) amount) exceeds_deployable _ h2 in
      inr (ground (arith, nz, h1), ground (arith, h3), sym (ok-injective h4))
]

pub reserve_order-ok :
    (m : Portfolio) (id currency : String) (amount : Money) (n : Portfolio)
    → reserve_order m id currency amount ≡ ok n
    → (pos 0 <ℤ amount)
      × (lookup id m.order_reservations ≡ none)
      × (amount ≤ℤ deployable_quote m currency)
      × (n ≡ record m {
        reserved = moved m.reserved currency amount;
        order_reservations =
            insert id
              (record {
                order_id = id;
                currency = currency;
                amount = amount;
                remaining = amount;
                status = active;
              })
              m.order_reservations;
      })
unfolding reserve_order
reserve_order-ok m id currency amount n h =
    let (h1, h2) = throw_if-ok (Money.is_zero amount || Money.is_negative amount) bad_amount _ h in
    let (h3, h4) = throw_if-ok (contains id m.order_reservations) already_reserved _ h2 in
    let (h5, h6) =
      throw_if-ok (ltb_ℤ (deployable_quote m currency) amount) exceeds_deployable _ h4 in
    (ground (arith, h1), ground (arith, h3), ground (arith, h5), sym (ok-injective h6))

pub active_reservation-ok :
    (m : Portfolio) (id : String) (r : OrderReservation)
    → active_reservation m id ≡ some r
    → (lookup id m.order_reservations ≡ some r) × (r.status ≡ active)
active_reservation-ok m id r h = elim (Option-cases (lookup id m.order_reservations)) [
  | inl e ↦ ground (arith, e, h)
  | inr (x, e) ↦ ground (arith, e, h)
]

pub consume-ok :
    (m : Portfolio) (id : String) (amount : Money) (n : Portfolio)
    → consume_order_reservation m id amount ≡ ok n
    → (r : OrderReservation) × (active_reservation m id ≡ some r)
      × (pos 0 <ℤ amount)
      × (amount ≤ℤ r.remaining)
      × (n ≡ record m {
        order_reservations =
            insert id (record r { remaining = r.remaining -ℤ amount }) m.order_reservations;
      })
unfolding consume_order_reservation
consume-ok m id amount n h =
    let (r, h1, h2) = >>=-eq-ok (or_throw (active_reservation m id) no_reservation) _ h in
    let (h3, h4) = throw_if-ok (Money.is_negative_or_zero amount) bad_amount _ h2 in
    let (h5, h6) = throw_if-ok (ltb_ℤ r.remaining amount) exceeds_reservation _ h4 in
    (
      r,
      or_throw-ok (active_reservation m id) no_reservation h1,
      ground (arith, h3),
      ground (arith, h5),
      sym (ok-injective h6),
    )

pub sub_eq : (a b : Money) → a -ℤ b ≡ a +ℤ neg b
sub_eq a b = omega int_laws

pub release_order_none :
    (m : Portfolio) (id : String)
    → active_reservation m id ≡ none
    → release_order_reservation m id ≡ m
unfolding release_order_reservation
release_order_none m id a = elim (Option-cases (lookup id m.order_reservations)) [
  | inl e ↦ ground (arith, e)
  | inr (x, e) ↦ ground (arith, e, a)
]

-- An active reservation that is released gives back what remains of it.
pub release_order-ok :
    (m : Portfolio) (id : String) (r : OrderReservation)
    → active_reservation m id ≡ some r
    → release_order_reservation m id ≡ record m {
      reserved = moved m.reserved r.currency (neg r.remaining);
      order_reservations =
          insert id (record r { remaining = pos 0; status = released }) m.order_reservations;
    }
unfolding release_order_reservation
release_order-ok m id r a =
    let (e, s) = active_reservation-ok m id r a in
    ground (arith, e, s, sub_eq (get_or r.currency m.reserved (pos 0)) r.remaining)
