-- ===== src/Portfolio/Fill.antt =====
-- portfolio/Portfolio.ts: `applyFill`, one fill into cash, position and P&L.
pub mod Inversion
pub mod Conserve
pub mod Provenance
pub mod Frame
pub mod Peak
pub mod Solvent
use cryptotradingbot.Common.{
  ℕ, Bool, true, false, not, Option, none, some, String, ◌==◌, if◌then◌else◌,
}
use cryptotradingbot.Common.Int.{ltb_ℤ}
use cryptotradingbot.Common.Dict.{Dict, lookup, insert, erase}
use cryptotradingbot.Common.Result.{
  Result, ok, err, or_throw, ◌>>=◌, ◌>>◌, throw_if, type_error, bad_quantity, bad_anchor,
  no_position, exceeds_position,
}
use cryptotradingbot.Money
use cryptotradingbot.Money.{Money}
use cryptotradingbot.Portfolio.Model.{Portfolio, Position, SourceQuantities, Side, buy, sell, bot}
use cryptotradingbot.Portfolio.Ids.{quote_of}
use cryptotradingbot.Portfolio.Equity.{position, track_peak, utc_day_key}
use cryptotradingbot.Portfolio.Ownership.{source_breakdown_of}

-- `state.cash.get(quote)!`: the currency and its cash. Where there is no entry the next call is on
-- `undefined`, and throws.
unfoldable pub quote_cash : Portfolio → String → Result (String × Money)
quote_cash m symbol = do
  quote ← or_throw (quote_of symbol) type_error
  amount ← or_throw (lookup quote m.cash) type_error
  ok (quote, amount)

-- An anchor that is given must be positive.
abbrev pub is_bad_anchor : Option Money → Bool
is_bad_anchor none = false
is_bad_anchor (some anchor) = not (Money.is_positive anchor)

-- The position that a BUY leaves.
unfoldable pub bought_position :
    String → Money → Money → Money → Option Money → Option Position → Result Position
bought_position symbol quantity cost fee anchor (some existing) = do
  let new_quantity = Money.add existing.quantity quantity
  let new_cost_basis = Money.add existing.cost_basis cost
  let sq = source_breakdown_of existing
  average ← Money.div new_cost_basis new_quantity
  ok (record existing {
    quantity = new_quantity;
    cost_basis = new_cost_basis;
    average_entry_price = average;
    fees_paid = Money.add existing.fees_paid fee;
    source_quantities = some (record {
      bot_quantity = Money.add sq.bot_quantity quantity;
      external_quantity = sq.external_quantity;
    });
  })
bought_position symbol quantity cost fee anchor none = do
  throw_if (is_bad_anchor anchor) bad_anchor
  average ← Money.div cost quantity
  ok (record {
    symbol = symbol;
    quantity = quantity;
    average_entry_price = average;
    cost_basis = cost;
    realized_pnl = Money.zero;
    fees_paid = fee;
    entry_anchor_price = anchor;
    source = bot;
    source_quantities = some (record { bot_quantity = quantity; external_quantity = Money.zero });
  })

unfoldable pub apply_buy :
    Portfolio → String → Money → Money → Money → Option Money → Result Portfolio
apply_buy m symbol quantity price fee anchor = do
  let cost = Money.add (Money.mul quantity price) fee
  p ← bought_position symbol quantity cost fee anchor (position m symbol)
  entry ← quote_cash m symbol
  ok (record m {
    positions = insert symbol p m.positions;
    cash = insert entry.0 (Money.sub entry.1 cost) m.cash;
    total_fees = Money.add m.total_fees fee;
  })

-- The breakdown after a SELL: BOT inventory goes first.
unfoldable pub sold_breakdown : SourceQuantities → Money → SourceQuantities
sold_breakdown sq quantity =
    let bot_consumed = Money.min sq.bot_quantity quantity in
    let sell_remaining = Money.sub quantity bot_consumed in
    let external_consumed = Money.min sq.external_quantity sell_remaining in
    record {
      bot_quantity = Money.sub sq.bot_quantity bot_consumed;
      external_quantity = Money.sub sq.external_quantity external_consumed;
    }

-- `quantity.mul(price.sub(existing.averageEntryPrice)).sub(fee)`
unfoldable pub realized_on : Position → Money → Money → Money → Money
realized_on existing quantity price fee =
    Money.sub (Money.mul quantity (Money.sub price existing.average_entry_price)) fee

unfoldable pub sold_position : Position → Money → Money → Money → Position
unfolding realized_on
sold_position existing quantity price fee =
    let remaining_quantity = Money.sub existing.quantity quantity in
    record existing {
      quantity = remaining_quantity;
      cost_basis =
          (if Money.is_zero remaining_quantity
            then Money.zero
            else Money.sub existing.cost_basis (Money.mul existing.average_entry_price quantity));
      realized_pnl = Money.add existing.realized_pnl (realized_on existing quantity price fee);
      fees_paid = Money.add existing.fees_paid fee;
      source_quantities = some (sold_breakdown (source_breakdown_of existing) quantity);
    }

abbrev pub same_day : Option ℕ → ℕ → Bool
same_day none day = false
same_day (some d) day = d == day

-- The daily bucket, which starts anew on another UTC day.
unfoldable pub book_daily : Portfolio → Option ℕ → Money → Portfolio
book_daily m none realized = m
book_daily m (some now_ms) realized =
    let day = utc_day_key now_ms in
    record m {
      daily_realized_day_key = some day;
      daily_realized_pnl =
          Money.add
            (if same_day m.daily_realized_day_key day then m.daily_realized_pnl else Money.zero)
            realized;
    }

unfoldable pub apply_sell : Portfolio → String → Money → Money → Money → Option ℕ → Result Portfolio
apply_sell m symbol quantity price fee now_ms = do
  existing ← or_throw (position m symbol) no_position
  throw_if (Money.is_zero existing.quantity) no_position
  throw_if (ltb_ℤ existing.quantity quantity) exceeds_position
  let p = sold_position existing quantity price fee
  let realized = realized_on existing quantity price fee
  entry ← quote_cash m symbol
  ok (
      book_daily
        (record m {
          positions =
              (if Money.is_zero p.quantity
                then erase symbol (insert symbol p m.positions)
                else insert symbol p m.positions);
          cash =
              insert entry.0 (Money.add entry.1 (Money.sub (Money.mul quantity price) fee)) m.cash;
          realized_pnl = Money.add m.realized_pnl realized;
          total_fees = Money.add m.total_fees fee;
        })
        now_ms realized)

unfoldable pub apply_fill :
    Portfolio → String → Side → Money → Money → Money → Option ℕ → Option Money → Result Portfolio
apply_fill m symbol side quantity price fee now_ms anchor = do
  throw_if (not (Money.is_positive quantity)) bad_quantity
  next ← elim side [
    | buy ↦ apply_buy m symbol quantity price fee anchor
    | sell ↦ apply_sell m symbol quantity price fee now_ms
  ]
  ok (track_peak next)
