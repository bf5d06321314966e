-- ===== src/Portfolio/Reserve.antt =====
-- portfolio/Portfolio.ts: quote reserved by orders in flight, and what is left to deploy.
pub mod Steps
pub mod Backing
pub mod Deployable
pub mod Release
use cryptotradingbot.Common.{
  Bool, true, false, not, ◌&&◌, ◌||◌, Option, none, some, String, if◌then◌else◌,
}
use cryptotradingbot.Common.Int.{ltb_ℤ}
use cryptotradingbot.Common.Dict.{lookup, contains, insert}
use cryptotradingbot.Common.Result.{
  Result, ok, err, or_throw, ◌>>=◌, ◌>>◌, throw_if, bad_amount, exceeds_deployable,
  already_reserved, no_reservation, exceeds_reservation,
}
use cryptotradingbot.Money
use cryptotradingbot.Money.{Money}
use cryptotradingbot.Portfolio.Model.{
  Portfolio, OrderReservation, Balance, active, released, is_active,
}
use cryptotradingbot.Portfolio.Equity.{cash, reserved}

unfoldable pub deployable_quote : Portfolio → String → Money
deployable_quote m currency =
    if Money.is_negative_or_zero (Money.sub (cash m currency) (reserved m currency))
    then Money.zero
    else Money.sub (cash m currency) (reserved m currency)

-- isUsableExchangeAvailable, of a balance that is reported
unfoldable pub is_usable : Balance → Bool
is_usable b =
    not (Money.is_negative b.total || Money.is_negative b.available || Money.is_negative b.held)
    && not (ltb_ℤ b.total b.available)
    && Money.equals (Money.sub b.total b.held) b.available

-- The smaller of the managed cash and what is available, less what is reserved, and never negative.
unfoldable pub bounded_net : Money → Money → Money → Money
bounded_net managed_cash available held_back =
    let pool = (if ltb_ℤ managed_cash available then managed_cash else available) in
    let net = (if Money.is_negative_or_zero pool then Money.zero else Money.sub pool held_back) in
    if Money.is_negative_or_zero net then Money.zero else net

unfoldable pub deployable_quote_bounded : Portfolio → String → Option Balance → Money
unfolding bounded_net
deployable_quote_bounded m currency none = Money.zero
deployable_quote_bounded m currency (some b) =
    if not (is_usable b)
    then Money.zero
    else bounded_net (cash m currency) b.available (reserved m currency)

unfoldable pub reserve_quote : Portfolio → String → Money → Result Portfolio
reserve_quote m currency amount = if Money.is_zero amount then ok m else do
  throw_if (Money.is_negative amount) bad_amount
  throw_if (ltb_ℤ (deployable_quote m currency) amount) exceeds_deployable
  ok (record m { reserved = insert currency (Money.add (reserved m currency) amount) m.reserved })

unfoldable pub release_quote : Portfolio → String → Money → Result Portfolio
release_quote m currency amount = if Money.is_zero amount then ok m else do
  throw_if (Money.is_negative amount) bad_amount
  let current = reserved m currency
  ok (
      if ltb_ℤ current amount
      then m
      else record m { reserved = insert currency (Money.sub current amount) m.reserved })

unfoldable pub reserve_order : Portfolio → String → String → Money → Result Portfolio
reserve_order m order_id currency amount = do
  throw_if (Money.is_zero amount || Money.is_negative amount) bad_amount
  throw_if (contains order_id m.order_reservations) already_reserved
  throw_if (ltb_ℤ (deployable_quote m currency) amount) exceeds_deployable
  ok (record m {
    reserved = insert currency (Money.add (reserved m currency) amount) m.reserved;
    order_reservations =
        insert order_id
          (record {
            order_id = order_id;
            currency = currency;
            amount = amount;
            remaining = amount;
            status = active;
          })
          m.order_reservations;
  })

-- `!res || res.status !== 'ACTIVE'`
abbrev pub active_reservation : Portfolio → String → Option OrderReservation
active_reservation m order_id = elim (lookup order_id m.order_reservations) [
  | none ↦ none
  | some res ↦ if is_active res.status then some res else none
]

unfoldable pub consume_order_reservation : Portfolio → String → Money → Result Portfolio
consume_order_reservation m order_id amount = do
  res ← or_throw (active_reservation m order_id) no_reservation
  throw_if (Money.is_negative_or_zero amount) bad_amount
  throw_if (ltb_ℤ res.remaining amount) exceeds_reservation
  ok (record m {
    order_reservations =
        insert order_id (record res { remaining = Money.sub res.remaining amount })
          m.order_reservations;
  })

unfoldable pub release_order_reservation : Portfolio → String → Portfolio
release_order_reservation m order_id = elim (active_reservation m order_id) [
  | none ↦ m
  | some res ↦ record m {
    reserved = insert res.currency (Money.sub (reserved m res.currency) res.remaining) m.reserved;
    order_reservations =
        insert order_id (record res { remaining = Money.zero; status = released })
          m.order_reservations;
  }
]
