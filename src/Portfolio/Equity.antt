-- ===== src/Portfolio/Equity.antt =====
-- portfolio/Portfolio.ts: the reads of a portfolio, its equity and its exposure.
use cryptotradingbot.Common.{
  ℕ, suc, ◌/◌, Bool, true, false, Option, none, some, List, [], ◌∷◌, String, str_eq, leb, ◌==◌,
  if◌then◌else◌,
}
use cryptotradingbot.Common.Int.{ltb_ℤ}
use cryptotradingbot.Common.Dict.{Dict, lookup, get_or, insert}
use cryptotradingbot.Money
use cryptotradingbot.Money.{Money}
use cryptotradingbot.Portfolio.Model.{Portfolio, Position}
use cryptotradingbot.Portfolio.Ids.{base_of}

abbrev pub cash : Portfolio → String → Money
cash m currency = get_or currency m.cash Money.zero

abbrev pub position : Portfolio → String → Option Position
position m symbol = lookup symbol m.positions

abbrev pub external : Portfolio → String → Money
external m symbol = get_or symbol m.external_snapshot Money.zero

abbrev pub reserved : Portfolio → String → Money
reserved m currency = get_or currency m.reserved Money.zero

-- `set.has(s)` and `set.add(s)`
unfoldable pub member : String → List String → Bool
member s [] = false
member s (t ∷ ts) = if str_eq t s then true else member s ts

unfoldable pub include : String → List String → List String
include s [] = s ∷ []
include s (t ∷ ts) = if str_eq t s then t ∷ ts else t ∷ include s ts

abbrev pub is_authorized_external : Portfolio → String → Bool
is_authorized_external m symbol = member symbol m.authorized_external

-- The two loops of `equityOf`, from a running total.
unfoldable pub add_cash : Money → Dict Money → Money
add_cash total [] = total
add_cash total ((_, amount) ∷ rest) = add_cash (Money.add total amount) rest

unfoldable pub add_cost : Money → Dict Position → Money
add_cost total [] = total
add_cost total ((_, p) ∷ rest) = add_cost (Money.add total p.cost_basis) rest

unfoldable pub equity_of : Dict Money → Dict Position → Money
unfolding add_cash add_cost
equity_of cash positions = add_cost (add_cash Money.zero cash) positions

unfoldable pub managed_open_count : Dict Position → ℕ
managed_open_count [] = 0
managed_open_count ((_, p) ∷ rest) =
    let n = managed_open_count rest in if Money.is_positive p.quantity then suc n else n

-- A limit of 0 is no limit.
unfoldable pub at_max_open_positions : Portfolio → ℕ → Bool
unfolding managed_open_count
at_max_open_positions m max_open_positions =
    if leb max_open_positions 0
    then false
    else leb max_open_positions (managed_open_count m.positions)

abbrev pub credit : String → Money → Dict Money → Dict Money
credit base amount expected =
    insert base (Money.add (get_or base expected Money.zero) amount) expected

-- The two loops of `expectedAssetBalances`.
unfoldable pub expect_positions : Dict Money → Dict Position → Dict Money
expect_positions expected [] = expected
expect_positions expected ((_, p) ∷ rest) =
    expect_positions (credit (base_of p.symbol) p.quantity expected) rest

unfoldable pub expect_external : Dict Money → Dict Money → Dict Money
expect_external expected [] = expected
expect_external expected ((symbol, amount) ∷ rest) =
    expect_external (credit (base_of symbol) amount expected) rest

unfoldable pub expected_asset_balances : Portfolio → Dict Money
unfolding expect_positions expect_external
expected_asset_balances m = expect_external (expect_positions [] m.positions) m.external_snapshot

-- The loop of `markToMarket`: equity and unrealized P&L so far.
mark_positions : Dict Money → Money × Money → Dict Position → Money × Money
mark_positions prices acc [] = acc
mark_positions prices (equity, unrealized) ((_, p) ∷ rest) =
    mark_positions prices
      (elim (lookup p.symbol prices) [
        | none ↦ (equity, unrealized)
        | some price ↦ (
          Money.add equity (Money.mul p.quantity price),
          Money.add unrealized (Money.mul p.quantity (Money.sub price p.average_entry_price)),
        )
      ])
      rest

unfoldable pub mark_to_market : Portfolio → Dict Money → Money × Money
unfolding mark_positions add_cash
mark_to_market m prices = mark_positions prices (add_cash Money.zero m.cash, Money.zero) m.positions

add_exposure : Dict Money → Money → Dict Position → Money
add_exposure prices total [] = total
add_exposure prices total ((_, p) ∷ rest) =
    add_exposure prices
      (elim (lookup p.symbol prices) [
        | none ↦ total
        | some price ↦ Money.add total (Money.mul p.quantity price)
      ])
      rest

unfoldable pub exposure : Portfolio → Dict Money → Money
unfolding add_exposure
exposure m prices = add_exposure prices Money.zero m.positions

-- `if (equity.compareTo(state.peakEquity) > 0) state.peakEquity = equity;`
unfoldable pub track_peak : Portfolio → Portfolio
track_peak m =
    if ltb_ℤ m.peak_equity (equity_of m.cash m.positions)
    then record m { peak_equity = equity_of m.cash m.positions }
    else m

-- utcDayKey: the number of the UTC day.
unfoldable pub utc_day_key : ℕ → ℕ
utc_day_key now_ms = now_ms / 86400000

unfoldable pub daily_realized_pnl_at : Portfolio → ℕ → Money
daily_realized_pnl_at m now_ms = elim m.daily_realized_day_key [
  | none ↦ Money.zero
  | some day ↦ if day == utc_day_key now_ms then m.daily_realized_pnl else Money.zero
]
