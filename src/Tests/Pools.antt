-- ===== src/Tests/Pools.antt =====
-- portfolio/Portfolio.ts: reserving, releasing and what can be deployed.
use cryptotradingbot.Common.{◌≡◌, refl, str_eq, some, none, String, false, true, arith}
use cryptotradingbot.Common.Int.{pos, ◌+ℤ◌, ◌-ℤ◌, ◌≤ℤ◌}
use cryptotradingbot.Common.Dict.{Keyed, lookup, insert, erase, get_or}
use cryptotradingbot.Common.Result.{Result, ok}
use cryptotradingbot.Portfolio.Model.{Portfolio, OrderReservation, Balance}
use cryptotradingbot.Portfolio.Equity.{cash, reserved, expected_asset_balances}
use cryptotradingbot.Portfolio.Reserve.{
  deployable_quote, deployable_quote_bounded, is_usable, reserve_order, release_order_reservation,
  active_reservation,
}
use cryptotradingbot.Portfolio.Reserve.Deployable.{
  reserve_order-deployable, deployable_quote_bounded_lem,
}
use cryptotradingbot.Portfolio.Reserve.Release.{release_order_reservation_once}
use cryptotradingbot.Portfolio.Ownership.{authorize_external, authorized_position}
use cryptotradingbot.Portfolio.Ownership.Moved.{IsMoved}
use cryptotradingbot.Portfolio.Ownership.Authorize.{authorize_external_conserves}
use cryptotradingbot.Portfolio.Fill.Provenance.{IsManaged}
use cryptotradingbot.Portfolio.Equity.{include}
use cryptotradingbot.Tests.Data.{units, book, after}
use cryptotradingbot.Tests.Fills.{book-IsManaged}

abbrev reserved_more : Result Portfolio
reserved_more = reserve_order book "o2" "CAD" (units 500)

reserved_more-ok : reserved_more ≡ ok (after book reserved_more)
unfolding reserve_order deployable_quote lookup insert ◌+ℤ◌ ◌-ℤ◌
reserved_more-ok = refl

reserve_order-deployable_example :
    let n = after book reserved_more in
    (deployable_quote n "CAD" ≡ deployable_quote book "CAD" -ℤ units 500)
    × (pos 0 ≤ℤ deployable_quote n "CAD")
    × (reserved n "CAD" ≤ℤ cash n "CAD")
    × ((c : String) → str_eq "CAD" c ≡ false → deployable_quote n c ≡ deployable_quote book c)
reserve_order-deployable_example =
    reserve_order-deployable book "o2" "CAD" (units 500) (after book reserved_more) reserved_more-ok

abbrev balance : Balance
balance = record { currency = "CAD"; total = units 700; available = units 650; held = units 50 }

deployable_quote_bounded_lem_example :
    let d = deployable_quote_bounded book "CAD" (some balance) in
    (pos 0 ≤ℤ d)
    × (d ≤ℤ deployable_quote book "CAD")
    × (is_usable balance ≡ true → d ≤ℤ units 650)
    × (is_usable balance ≡ false → d ≡ pos 0)
    × (deployable_quote_bounded book "CAD" none ≡ pos 0)
unfolding lookup
deployable_quote_bounded_lem_example = deployable_quote_bounded_lem book "CAD" balance (omega arith)

release_order_reservation_once_example :
    (release_order_reservation (release_order_reservation book "o1") "o1"
      ≡ release_order_reservation book "o1")
    × (active_reservation book "o1" ≡ none → release_order_reservation book "o1" ≡ book)
    × ((r : OrderReservation)
        → active_reservation book "o1" ≡ some r
        → reserved (release_order_reservation book "o1") r.currency
          ≡ reserved book r.currency -ℤ r.remaining)
release_order_reservation_once_example = release_order_reservation_once book "o1"

abbrev authorized : Result Portfolio
authorized = authorize_external book "ETH/CAD"

authorized-ok : authorized ≡ ok (after book authorized)
unfolding authorize_external authorized_position include lookup insert erase
authorized-ok = refl

snapshot-Keyed : Keyed book.external_snapshot
unfolding lookup
snapshot-Keyed = (refl, tt)

authorize_external_conserves_example :
    IsMoved "ETH/CAD" book (after book authorized)
    × IsManaged (after book authorized).positions
    × ((b : String)
        → get_or b (expected_asset_balances (after book authorized)) (pos 0)
          ≡ get_or b (expected_asset_balances book) (pos 0))
authorize_external_conserves_example =
    authorize_external_conserves book "ETH/CAD" (after book authorized) book-IsManaged
      snapshot-Keyed authorized-ok
