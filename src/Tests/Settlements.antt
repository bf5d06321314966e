-- ===== src/Tests/Settlements.antt =====
-- portfolio/Portfolio.ts: settlements by attestation and by intent, one after the other.
use cryptotradingbot.Common.{◌≡◌, ◌≢◌, refl, ap, str_eq, some, none, String, [], ◌∷◌, false}
use cryptotradingbot.Common.Int.{◌+ℤ◌, ◌-ℤ◌, ◌*ℤ◌}
use cryptotradingbot.Common.Dict.{lookup, insert, erase}
use cryptotradingbot.Common.Result.{Result, ok}
use cryptotradingbot.Money
use cryptotradingbot.Portfolio.Model.{
  Portfolio, sell, AppliedExecution, ManualSettlement, LiveOrderAttestation,
}
use cryptotradingbot.Portfolio.Ids.{
  base_of, quote_of, same_external_order_id, same_order, is_number, number, number_from,
  only_digits,
}
use cryptotradingbot.Portfolio.Equity.{add_cash, add_cost, equity_of, track_peak, utc_day_key}
use cryptotradingbot.Portfolio.Ownership.{source_breakdown_of, merge_external_breakdown}
use cryptotradingbot.Portfolio.Fill.{
  quote_cash, bought_position, apply_buy, apply_fill, sold_breakdown, realized_on, sold_position,
  book_daily, apply_sell,
}
use cryptotradingbot.Portfolio.Reserve.{
  consume_order_reservation, release_quote, release_order_reservation,
}
use cryptotradingbot.Portfolio.Settle.Aggregate.{
  consume_and_release, check_reserved, close_reservation, settle_aggregate,
}
use cryptotradingbot.Portfolio.Settle.Intent.{
  settled_elsewhere, record_settlement, settle_manual_order,
}
use cryptotradingbot.Portfolio.Settle.Attestation.{
  same_attestation, applied_to_order, settled_manually, attested_elsewhere, check_attested,
  record_attestation, settle_live_order_attested,
}
use cryptotradingbot.Portfolio.Settle.Attested.{settle_live_order_attested-uncounted}
use cryptotradingbot.Tests.Data.{units, book, after, manual_buy, attested_buy}

abbrev attested : Result Portfolio
attested = settle_live_order_attested book attested_buy

attested-ok : attested ≡ ok (after book attested)
unfolding check_attested same_attestation applied_to_order settled_manually attested_elsewhere
    record_attestation settle_live_order_attested check_reserved consume_and_release
    consume_order_reservation release_quote release_order_reservation close_reservation
    settle_aggregate settled_elsewhere same_external_order_id same_order is_number number
    number_from only_digits record_settlement settle_manual_order apply_fill apply_buy apply_sell
    sold_position book_daily realized_on sold_breakdown bought_position merge_external_breakdown
    quote_cash track_peak utc_day_key base_of quote_of lookup insert erase Money.mul Money.div
    Money.half_up equity_of add_cash add_cost source_breakdown_of Money.mul_fraction ◌+ℤ◌ ◌-ℤ◌ ◌*ℤ◌
attested-ok = refl

attested-changed : after book attested ≢ book
unfolding check_attested same_attestation applied_to_order settled_manually attested_elsewhere
    record_attestation settle_live_order_attested check_reserved consume_and_release
    consume_order_reservation release_quote release_order_reservation close_reservation
    settle_aggregate settled_elsewhere same_external_order_id same_order is_number number
    number_from only_digits record_settlement settle_manual_order apply_fill apply_buy apply_sell
    sold_position book_daily realized_on sold_breakdown bought_position merge_external_breakdown
    quote_cash track_peak utc_day_key base_of quote_of lookup insert erase Money.mul Money.div
    Money.half_up equity_of add_cash add_cost source_breakdown_of Money.mul_fraction ◌+ℤ◌ ◌-ℤ◌ ◌*ℤ◌
attested-changed e = cc (ap (λ (x : Portfolio). x.live_order_attestations) e)

settle_live_order_attested-uncounted_example :
    (lookup "o1" book.live_order_attestations ≡ none)
    × ((x : String) (e : AppliedExecution)
        → lookup x book.applied_executions ≡ some e
        → str_eq e.order_id "o1" ≡ false)
    × ((i : String) (s : ManualSettlement)
        → lookup i book.manual_settlements ≡ some s
        → same_external_order_id s.order_id (some "77") ≡ false)
    × ((j : String) (a : LiveOrderAttestation)
        → lookup j book.live_order_attestations ≡ some a
        → same_external_order_id (some a.exchange_order_id) (some "77") ≡ false)
settle_live_order_attested-uncounted_example =
    settle_live_order_attested-uncounted book attested_buy (after book attested) attested-ok
      attested-changed

-- An intent that sells under the exchange order 77, spelled 0077, whose attestation is on record.
abbrev sold_again : Result Portfolio
sold_again =
    settle_manual_order (record_attestation book attested_buy)
      (record manual_buy { intent_id = "i9"; side = sell }) 3000

counted_twice : (after book sold_again).cash ≡ ("CAD", units 1199) ∷ []
unfolding check_attested same_attestation applied_to_order settled_manually attested_elsewhere
    record_attestation settle_live_order_attested check_reserved consume_and_release
    consume_order_reservation release_quote release_order_reservation close_reservation
    settle_aggregate settled_elsewhere same_external_order_id same_order is_number number
    number_from only_digits record_settlement settle_manual_order apply_fill apply_buy apply_sell
    sold_position book_daily realized_on sold_breakdown bought_position merge_external_breakdown
    quote_cash track_peak utc_day_key base_of quote_of lookup insert erase Money.mul Money.div
    Money.half_up equity_of add_cash add_cost source_breakdown_of Money.mul_fraction ◌+ℤ◌ ◌-ℤ◌ ◌*ℤ◌
counted_twice = refl
