-- ===== src/Tests/Orders.antt =====
-- portfolio/Portfolio.ts: reservations, live fills and settlements on a portfolio.
use cryptotradingbot.Common.{◌≡◌, refl, str_eq, inl, inr, Bool-cases, some, arith, ◌∷◌, []}
use cryptotradingbot.Common.Int.{pos, ◌+ℤ◌, ◌-ℤ◌, ◌*ℤ◌, int_laws}
use cryptotradingbot.Common.Dict.{lookup, insert, erase}
use cryptotradingbot.Common.Result.{Result, ok}
use cryptotradingbot.Money
use cryptotradingbot.Portfolio.Model.{Portfolio, buy}
use cryptotradingbot.Portfolio.Ids.{base_of, quote_of}
use cryptotradingbot.Portfolio.Equity.{add_cash, add_cost, equity_of, track_peak, utc_day_key}
use cryptotradingbot.Portfolio.Ownership.{source_breakdown_of, merge_external_breakdown}
use cryptotradingbot.Portfolio.Fill.{quote_cash, bought_position, apply_buy, apply_fill}
use cryptotradingbot.Portfolio.Reserve.{
  consume_order_reservation, release_quote, release_order_reservation,
}
use cryptotradingbot.Portfolio.Reserve.Backing.{Backed}
use cryptotradingbot.Portfolio.Settle.Execution.{
  same_execution, pair_reservation, record_applied_execution, apply_new_execution, apply_live_fill,
}
use cryptotradingbot.Portfolio.Settle.Aggregate.{
  consume_and_release, check_reserved, close_reservation, settle_aggregate,
}
use cryptotradingbot.Portfolio.Settle.Intent.{
  settled_elsewhere, record_settlement, settle_manual_order,
}
use cryptotradingbot.Portfolio.Settle.Backing.{apply_live_fill-Backed}
use cryptotradingbot.Portfolio.Settle.Once.{execution_of, apply_live_fill_once}
use cryptotradingbot.Portfolio.Settle.Manual.{OnceEach, settle_manual_order-OnceEach}
use cryptotradingbot.Tests.Data.{units, book, after, two_coins, manual_buy}

pub book-Backed : Backed book
unfolding lookup ◌+ℤ◌
book-Backed = record {
  within =
      (record { nonneg = omega arith; capped = omega arith; closed = λ e. ground (arith, e) }, tt);
  covered = λ c. elim (Bool-cases (str_eq "CAD" c)) [
    | inl e ↦ grind (int_laws, e)
    | inr e ↦ grind (int_laws, e)
  ];
}

-- Two coins bought by the order o1 at 100 with a fee of 1.
abbrev filled : Result Portfolio
filled = apply_live_fill book "o1" "BTC/CAD" buy two_coins

filled-ok : filled ≡ ok (after book filled)
unfolding apply_live_fill apply_new_execution record_applied_execution same_execution
    pair_reservation consume_and_release consume_order_reservation release_quote
    release_order_reservation check_reserved close_reservation settle_aggregate settled_elsewhere
    record_settlement settle_manual_order apply_fill apply_buy bought_position
    merge_external_breakdown quote_cash track_peak utc_day_key base_of quote_of lookup insert erase
    Money.mul Money.div Money.half_up equity_of add_cash add_cost source_breakdown_of
    Money.mul_fraction ◌+ℤ◌ ◌-ℤ◌ ◌*ℤ◌
filled-ok = refl

refilled-ok :
    apply_live_fill (after book filled) "o1" "BTC/CAD" buy two_coins ≡ ok (after book filled)
unfolding apply_live_fill apply_new_execution record_applied_execution same_execution
    pair_reservation consume_and_release consume_order_reservation release_quote
    release_order_reservation check_reserved close_reservation settle_aggregate settled_elsewhere
    record_settlement settle_manual_order apply_fill apply_buy bought_position
    merge_external_breakdown quote_cash track_peak utc_day_key base_of quote_of lookup insert erase
    Money.mul Money.div Money.half_up equity_of add_cash add_cost source_breakdown_of
    Money.mul_fraction ◌+ℤ◌ ◌-ℤ◌ ◌*ℤ◌
refilled-ok = refl

abbrev consumed : Result Portfolio
consumed = consume_and_release book "o1" "CAD" (units 201)

consumed-ok : consumed ≡ ok (after book consumed)
unfolding apply_live_fill apply_new_execution record_applied_execution same_execution
    pair_reservation consume_and_release consume_order_reservation release_quote
    release_order_reservation check_reserved close_reservation settle_aggregate settled_elsewhere
    record_settlement settle_manual_order apply_fill apply_buy bought_position
    merge_external_breakdown quote_cash track_peak utc_day_key base_of quote_of lookup insert erase
    Money.mul Money.div Money.half_up equity_of add_cash add_cost source_breakdown_of
    Money.mul_fraction ◌+ℤ◌ ◌-ℤ◌ ◌*ℤ◌
consumed-ok = refl

abbrev closed : Result Portfolio
closed = settle_aggregate book "o1" "BTC/CAD" buy (units 2) (units 100) (units 1) (some 1000)

closed-ok : closed ≡ ok (after book closed)
unfolding apply_live_fill apply_new_execution record_applied_execution same_execution
    pair_reservation consume_and_release consume_order_reservation release_quote
    release_order_reservation check_reserved close_reservation settle_aggregate settled_elsewhere
    record_settlement settle_manual_order apply_fill apply_buy bought_position
    merge_external_breakdown quote_cash track_peak utc_day_key base_of quote_of lookup insert erase
    Money.mul Money.div Money.half_up equity_of add_cash add_cost source_breakdown_of
    Money.mul_fraction ◌+ℤ◌ ◌-ℤ◌ ◌*ℤ◌
closed-ok = refl

abbrev pub manual : Result Portfolio
manual = settle_manual_order book manual_buy 2000

pub manual-ok : manual ≡ ok (after book manual)
unfolding apply_live_fill apply_new_execution record_applied_execution same_execution
    pair_reservation consume_and_release consume_order_reservation release_quote
    release_order_reservation check_reserved close_reservation settle_aggregate settled_elsewhere
    record_settlement settle_manual_order apply_fill apply_buy bought_position
    merge_external_breakdown quote_cash track_peak utc_day_key base_of quote_of lookup insert erase
    Money.mul Money.div Money.half_up equity_of add_cash add_cost source_breakdown_of
    Money.mul_fraction ◌+ℤ◌ ◌-ℤ◌ ◌*ℤ◌
manual-ok = refl

none_settled : OnceEach book.manual_settlements
unfolding lookup
none_settled i j s t h _ _ _ = cc

-- The order's whole amount leaves the pool, the cost is paid, and the rest is free again.
closed_book :
    ((after book closed).cash ≡ ("CAD", units 799) ∷ [])
    × ((after book closed).reserved ≡ ("CAD", pos 0) ∷ [])
unfolding apply_live_fill apply_new_execution record_applied_execution same_execution
    pair_reservation consume_and_release consume_order_reservation release_quote
    release_order_reservation check_reserved close_reservation settle_aggregate settled_elsewhere
    record_settlement settle_manual_order apply_fill apply_buy bought_position
    merge_external_breakdown quote_cash track_peak utc_day_key base_of quote_of lookup insert erase
    Money.mul Money.div Money.half_up equity_of add_cash add_cost source_breakdown_of
    Money.mul_fraction ◌+ℤ◌ ◌-ℤ◌ ◌*ℤ◌
closed_book = (refl, refl)

apply_live_fill-Backed_example : Backed (after book filled)
apply_live_fill-Backed_example =
    apply_live_fill-Backed book "o1" "BTC/CAD" buy two_coins (after book filled) book-Backed
      filled-ok

apply_live_fill_once_example :
    (after book filled ≡ after book filled)
    × (execution_of "o1" "BTC/CAD" buy two_coins ≡ execution_of "o1" "BTC/CAD" buy two_coins)
apply_live_fill_once_example =
    apply_live_fill_once book "o1" "BTC/CAD" buy two_coins (after book filled) "o1" "BTC/CAD" buy
      two_coins (after book filled) filled-ok refl refilled-ok

settle_manual_order-OnceEach_example : OnceEach (after book manual).manual_settlements
settle_manual_order-OnceEach_example =
    settle_manual_order-OnceEach book manual_buy 2000 (after book manual) none_settled manual-ok
