-- ===== src/Tests/Fills.antt =====
-- portfolio/Portfolio.ts: `applyFill` and `applyLiveFill` on a portfolio of one position.
use cryptotradingbot.Common.{◌≡◌, refl, none, some, arith, ◌∷◌, []}
use cryptotradingbot.Common.Int.{◌+ℤ◌, ◌-ℤ◌, ◌*ℤ◌}
use cryptotradingbot.Common.Dict.{lookup, insert, erase, Keyed}
use cryptotradingbot.Common.Result.{Result, ok}
use cryptotradingbot.Money
use cryptotradingbot.Portfolio.Model.{Portfolio, sell}
use cryptotradingbot.Portfolio.Ids.{base_of, quote_of}
use cryptotradingbot.Portfolio.Equity.{add_cash, add_cost, equity_of, track_peak, utc_day_key}
use cryptotradingbot.Portfolio.Ownership.{source_breakdown_of}
use cryptotradingbot.Portfolio.Fill.{
  quote_cash, sold_breakdown, realized_on, sold_position, book_daily, apply_sell, apply_fill,
}
use cryptotradingbot.Portfolio.Fill.Conserve.{equity, gain, apply_fill-equity}
use cryptotradingbot.Portfolio.Fill.Provenance.{IsManaged, apply_fill-IsManaged}
use cryptotradingbot.Tests.Data.{units, book, after}

-- Two of three coins sold at 120 with a fee of 2.
abbrev sold_two : Result Portfolio
sold_two = apply_fill book "BTC/CAD" sell (units 2) (units 120) (units 2) (some 1000) none

sold_two-ok : sold_two ≡ ok (after book sold_two)
unfolding apply_fill apply_sell sold_position book_daily realized_on sold_breakdown quote_cash
    track_peak utc_day_key base_of quote_of lookup insert erase Money.mul Money.div Money.half_up
    equity_of add_cash add_cost source_breakdown_of Money.mul_fraction ◌+ℤ◌ ◌-ℤ◌ ◌*ℤ◌
sold_two-ok = refl

book-Keyed : Keyed book.positions
unfolding lookup
book-Keyed = (refl, tt)

apply_fill-equity_example :
    equity (after book sold_two)
    ≡ equity book +ℤ gain sell book (after book sold_two) "BTC/CAD" (units 2) (units 120) (units 2)
apply_fill-equity_example =
    apply_fill-equity book "BTC/CAD" sell (units 2) (units 120) (units 2) (some 1000) none
      (after book sold_two) book-Keyed sold_two-ok

pub book-IsManaged : IsManaged book.positions
unfolding lookup source_breakdown_of ◌+ℤ◌
book-IsManaged = record {
  keyed = (refl, tt);
  sound = (
    record {
      named = refl;
      long = omega arith;
      split = record { bot_nonneg = omega arith; external_nonneg = omega arith; adds_up = refl };
    },
    tt,
  );
}

apply_fill-IsManaged_example : IsManaged (after book sold_two).positions
apply_fill-IsManaged_example =
    apply_fill-IsManaged book "BTC/CAD" sell (units 2) (units 120) (units 2) (some 1000) none
      (after book sold_two) book-IsManaged sold_two-ok

-- The fee of 2 is taken off the proceeds of 240; two thirds of the cost leave with the coins.
sold_two_cash : (after book sold_two).cash ≡ ("CAD", units 1238) ∷ []
unfolding apply_fill apply_sell sold_position book_daily realized_on sold_breakdown quote_cash
    track_peak utc_day_key base_of quote_of lookup insert erase Money.mul Money.div Money.half_up
    equity_of add_cash add_cost source_breakdown_of Money.mul_fraction ◌+ℤ◌ ◌-ℤ◌ ◌*ℤ◌
sold_two_cash = refl
