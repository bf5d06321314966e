-- ===== src/Portfolio/Reserve/Backing.antt =====
-- The reserved pool of portfolio/Portfolio.ts backs every reservation of an order, under each
-- operation on reservations.
use cryptotradingbot.Common.{
  Bool, true, false, ◌&&◌, ◌≡◌, refl, ap, sym, subst, ◌∙◌, inl, inr, some, [], ◌∷◌, String, str_eq,
  Option-cases, Bool-cases, arith, if◌then◌else◌,
}
use cryptotradingbot.Common.Int.{pos, ◌<ℤ◌, ◌≤ℤ◌, ◌+ℤ◌, ◌-ℤ◌, neg, int_laws, parts_of_eq}
use cryptotradingbot.Common.Dict.{Dict, lookup, get_or, insert, All, All-insert, All-lookup}
use cryptotradingbot.Common.Result.{ok}
use cryptotradingbot.Money.{Money}
use cryptotradingbot.Portfolio.Model.{Portfolio, OrderReservation, active, released, is_active}
use cryptotradingbot.Portfolio.Sums.{total, share, total-insert}
use cryptotradingbot.Portfolio.Reserve.Steps.{
  moved, get_or-moved, reserve_quote-ok, reserve_order-ok, active_reservation-ok,
  release_order_none, release_order-ok,
}
use cryptotradingbot.Portfolio.Reserve.{
  reserve_quote, reserve_order, active_reservation, release_order_reservation,
}

-- What an order still holds back of a currency.
abbrev pub held_in : String → OrderReservation → Money
held_in currency r = if is_active r.status && str_eq r.currency currency then r.remaining else pos 0

abbrev pub committed : String → Dict OrderReservation → Money
committed currency orders = total (held_in currency) orders

-- `0 <= remaining <= amount`, and nothing remains of a released reservation.
pub record IsWithin (order_id : String) (r : OrderReservation) : Type 0 where
  pub nonneg : pos 0 ≤ℤ r.remaining
  pub capped : r.remaining ≤ℤ r.amount
  pub closed : r.status ≡ released → r.remaining ≡ pos 0

-- The pool of every currency covers what the orders still hold back.
pub record IsBacked (pool : Dict Money) (orders : Dict OrderReservation) : Type 0 where
  pub within : All IsWithin orders
  pub covered : (c : String) → committed c orders ≤ℤ get_or c pool (pos 0)

abbrev pub Backed : Portfolio → Type 0
Backed m = IsBacked m.reserved m.order_reservations

held_in_nonneg :
    (c : String) (id : String) (r : OrderReservation) → IsWithin id r → pos 0 ≤ℤ held_in c r
held_in_nonneg c id r w = ground arith

committed_nonneg :
    (c : String) (orders : Dict OrderReservation)
    → All IsWithin orders
    → pos 0 ≤ℤ committed c orders
committed_nonneg c [] h = omega arith
committed_nonneg c ((id, r) ∷ orders) h =
    omega (int_laws, held_in_nonneg c id r h.0, committed_nonneg c orders h.1)

-- One order holds back no more than all do.
pub share-le-committed :
    (c id : String) (orders : Dict OrderReservation)
    → All IsWithin orders
    → share (held_in c) id orders ≤ℤ committed c orders
unfolding lookup
share-le-committed c id [] h = omega arith
share-le-committed c id ((j, r) ∷ orders) h = elim (Bool-cases (str_eq j id)) [
  | inl e ↦ rw (e, share) (omega (int_laws, committed_nonneg c orders h.1))
  | inr e ↦
      rw (e, share) (omega (int_laws, held_in_nonneg c j r h.0, share-le-committed c id orders h.1))
]

-- An order's record replaced.
committed-insert :
    (c id : String) (r' : OrderReservation) (orders : Dict OrderReservation)
    → committed c (insert id r' orders) +ℤ share (held_in c) id orders
      ≡ committed c orders +ℤ held_in c r'
committed-insert c id r' orders = total-insert (held_in c) id r' orders

-- What changes in an order and in the pool of its currency, by as much.
pub record Change (m n : Portfolio) (id currency : String) (delta : Money) (r' : OrderReservation)
    : Type 0 where
  pub orders : n.order_reservations ≡ insert id r' m.order_reservations
  pub pool :
      (c : String)
      → get_or c n.reserved (pos 0)
        ≡ get_or c m.reserved (pos 0) +ℤ (if str_eq currency c then delta else pos 0)
  pub order :
      (c : String)
      → held_in c r'
        ≤ℤ share (held_in c) id m.order_reservations +ℤ (if str_eq currency c then delta else pos 0)

pub Change-Backed :
    {m n : Portfolio} {id currency : String} {delta : Money} {r' : OrderReservation}
    → Change m n id currency delta r'
    → IsWithin id r'
    → Backed m
    → Backed n
Change-Backed {m} {n} {id} {currency} {delta} {r'} ch w b = record {
  within =
      subst (All IsWithin) (sym ch.orders)
        (All-insert IsWithin id r' m.order_reservations b.within w);
  covered = λ c.
      rw (ch.orders, ch.pool c)
        (omega (
          int_laws,
          b.covered c,
          parts_of_eq (committed-insert c id r' m.order_reservations),
          ch.order c,
        ));
}

-- Each operation on the reservation of an order, as a change.
reserve_order-Change :
    (m : Portfolio) (id currency : String) (amount : Money) (n : Portfolio)
    → reserve_order m id currency amount ≡ ok n
    → Change m n id currency amount (record {
      order_id = id;
      currency = currency;
      amount = amount;
      remaining = amount;
      status = active;
    })
reserve_order-Change m id currency amount n h =
    let (_, fresh, _, e) = reserve_order-ok m id currency amount n h in
    record {
      orders = ap (λ (x : Portfolio). x.order_reservations) e;
      pool = λ c.
          ap (λ (x : Portfolio). get_or c x.reserved (pos 0)) e
          ∙ get_or-moved m.reserved currency c amount;
      order = λ c. rw (fresh, share) (omega int_laws);
    }

pub share_of_active :
    (c : String) (m : Portfolio) (id : String) (r : OrderReservation)
    → active_reservation m id ≡ some r
    → share (held_in c) id m.order_reservations
      ≡ (if str_eq r.currency c then r.remaining else pos 0)
share_of_active c m id r a = let (e, s) = active_reservation-ok m id r a in rw (e, share) (rw s)

consumed_order :
    (c : String) (m : Portfolio) (id : String) (amount : Money) (r : OrderReservation)
    → active_reservation m id ≡ some r
    → held_in c (record r { remaining = r.remaining -ℤ amount })
      ≤ℤ share (held_in c) id m.order_reservations
        +ℤ (if str_eq r.currency c then neg amount else pos 0)
consumed_order c m id amount r a =
    let (e, s) = active_reservation-ok m id r a in
    rw (share_of_active c m id r a, s)
      (elim (Bool-cases (str_eq r.currency c)) [
        | inl q ↦ rw q (omega int_laws)
        | inr q ↦ rw q (omega int_laws)
      ])

pub consume-Change :
    (m : Portfolio) (id : String) (amount : Money) (n : Portfolio) (r : OrderReservation)
    → active_reservation m id ≡ some r
    → n.order_reservations
      ≡ insert id (record r { remaining = r.remaining -ℤ amount }) m.order_reservations
    → n.reserved ≡ moved m.reserved r.currency (neg amount)
    → Change m n id r.currency (neg amount) (record r { remaining = r.remaining -ℤ amount })
consume-Change m id amount n r a eo ep = record {
  orders = eo;
  pool = λ c.
      ap (λ (x : Dict Money). get_or c x (pos 0)) ep
      ∙ get_or-moved m.reserved r.currency c (neg amount);
  order = λ c. consumed_order c m id amount r a;
}

pub release_order-Change :
    (m : Portfolio) (id : String) (r : OrderReservation)
    → active_reservation m id ≡ some r
    → Change m
        (release_order_reservation m id)
        id
        r.currency
        (neg r.remaining)
        (record r { remaining = pos 0; status = released })
release_order-Change m id r a =
    let e = release_order-ok m id r a in
    record {
      orders = ap (λ (x : Portfolio). x.order_reservations) e;
      pool = λ c.
          ap (λ (x : Portfolio). get_or c x.reserved (pos 0)) e
          ∙ get_or-moved m.reserved r.currency c (neg r.remaining);
      order =
          λ c. rw (share_of_active c m id r a) (released_order (str_eq r.currency c) r.remaining);
    }
  where
    released_order :
        (b : Bool) (x : Money) → pos 0 ≤ℤ (if b then x else pos 0) +ℤ (if b then neg x else pos 0)
    released_order true x = omega int_laws
    released_order false x = omega int_laws

-- Reserving for an order keeps the pool backed.
pub reserve_order-Backed :
    (m : Portfolio) (id currency : String) (amount : Money) (n : Portfolio)
    → Backed m
    → reserve_order m id currency amount ≡ ok n
    → Backed n
reserve_order-Backed m id currency amount n b h =
    let (p, _, _, _) = reserve_order-ok m id currency amount n h in
    Change-Backed (reserve_order-Change m id currency amount n h)
      (record { nonneg = omega arith; capped = omega arith; closed = λ e. cc }) b

-- Releasing an order's reservation keeps the pool backed, whatever state it is in.
pub release_order-Backed :
    (m : Portfolio) (id : String) → Backed m → Backed (release_order_reservation m id)
release_order-Backed m id b = elim (Option-cases (active_reservation m id)) [
  | inl e ↦ rw (release_order_none m id e) b
  | inr (r, a) ↦
      let w =
        All-lookup IsWithin id r m.order_reservations b.within (active_reservation-ok m id r a).0 in
      Change-Backed (release_order-Change m id r a)
        (record {
          nonneg = omega arith;
          capped = omega (arith, w.nonneg, w.capped);
          closed = λ _. refl;
        })
        b
]

pub reserve_quote-Backed :
    (m : Portfolio) (currency : String) (amount : Money) (n : Portfolio)
    → Backed m
    → reserve_quote m currency amount ≡ ok n
    → Backed n
reserve_quote-Backed m currency amount n b h = elim (reserve_quote-ok m currency amount n h) [
  | inl (_, e) ↦ rw e b
  | inr (p, _, e) ↦ rw e (record {
    within = b.within;
    covered = λ c. omega (
      int_laws,
      b.covered c,
      parts_of_eq (get_or-moved m.reserved currency c amount),
      raise_nonneg (str_eq currency c) amount p,
    );
  })
]
  where
    raise_nonneg : (s : Bool) (a : Money) → pos 0 <ℤ a → pos 0 ≤ℤ (if s then a else pos 0)
    raise_nonneg true a p = omega arith
    raise_nonneg false a p = omega arith
