-- ===== src/Portfolio/Settle/Aggregate.antt =====
-- portfolio/Portfolio.ts: an order accounted as a whole against its reservation, which
-- `settleManualOrder` and `settleLiveOrderAttested` do alike.
use cryptotradingbot.Common.{ℕ, Option, none, some, String}
use cryptotradingbot.Common.Int.{ltb_ℤ}
use cryptotradingbot.Common.Result.{
  Result, ok, err, or_throw, ◌>>=◌, ◌>>◌, throw_if, no_reservation, exceeds_reservation,
}
use cryptotradingbot.Money
use cryptotradingbot.Money.{Money}
use cryptotradingbot.Portfolio.Model.{Portfolio, Side, buy, sell, OrderReservation}
use cryptotradingbot.Portfolio.Reserve.{
  active_reservation, consume_order_reservation, release_quote, release_order_reservation,
}
use cryptotradingbot.Portfolio.Fill.{apply_fill}

-- The reservation of a BUY is consumed, and the pool reduced by as much.
unfoldable pub consume_and_release : Portfolio → String → String → Money → Result Portfolio
consume_and_release m order_id currency cost = do
  consumed ← consume_order_reservation m order_id cost
  release_quote consumed currency cost

-- A BUY needs an active reservation that covers its cost.
unfoldable pub check_reserved : Portfolio → String → Side → Money → Result (Unit {0})
check_reserved m order_id sell cost = ok tt
check_reserved m order_id buy cost = do
  res ← or_throw (active_reservation m order_id) no_reservation
  throw_if (ltb_ℤ res.remaining cost) exceeds_reservation

-- The reservation as it was read before the fill.
unfoldable pub close_reservation :
    Portfolio → Option OrderReservation → String → Money → Result Portfolio
close_reservation m none order_id cost = err no_reservation
close_reservation m (some res) order_id cost = do
  released ← consume_and_release m order_id res.currency cost
  ok (release_order_reservation released order_id)

-- The order as a whole into cash and position, and its reservation closed.
unfoldable pub settle_aggregate :
    Portfolio → String → String → Side → Money → Money → Money → Option ℕ → Result Portfolio
settle_aggregate m order_id symbol side quantity price fee now_ms = do
  let cost = Money.add (Money.mul quantity price) fee
  check_reserved m order_id side cost
  filled ← apply_fill m symbol side quantity price fee now_ms none
  elim side [
    | sell ↦ ok filled
    | buy ↦ close_reservation filled (active_reservation m order_id) order_id cost
  ]
