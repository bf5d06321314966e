-- ===== src/Portfolio/Ownership.antt =====
-- portfolio/Portfolio.ts: cash and holdings that the bot did not acquire itself.
pub mod Expected
pub mod Moved
pub mod Authorize
use cryptotradingbot.Common.{Option, none, some, List, [], ◌∷◌, String, if◌then◌else◌}
use cryptotradingbot.Common.Dict.{Dict, insert, erase}
use cryptotradingbot.Common.Result.{
  Result, ok, err, ◌>>=◌, ◌>>◌, throw_if, negative_external, no_external, bad_amount,
}
use cryptotradingbot.Money
use cryptotradingbot.Money.{Money}
use cryptotradingbot.Portfolio.Model.{
  Portfolio, Position, SourceQuantities, bot, external_authorized,
}
use cryptotradingbot.Portfolio.Equity.{
  cash, position, external, include, is_authorized_external, equity_of, track_peak,
}

-- `Portfolio.empty(initialCash, ownership)`
unfoldable pub empty : Dict Money → Dict Money → List String → Portfolio
empty initial_cash external_snapshot authorized_external = record {
  cash = initial_cash;
  positions = [];
  peak_equity = equity_of initial_cash [];
  realized_pnl = Money.zero;
  daily_realized_pnl = Money.zero;
  daily_realized_day_key = none;
  total_fees = Money.zero;
  external_snapshot = external_snapshot;
  authorized_external = authorized_external;
  reserved = [];
  order_reservations = [];
  applied_executions = [];
  manual_settlements = [];
  live_order_attestations = [];
}

-- The loop of `withExternalSnapshot`. (An empty snapshot returns the portfolio as it is.)
unfoldable pub with_external_snapshot : Portfolio → Dict Money → Result Portfolio
with_external_snapshot m [] = ok m
with_external_snapshot m ((currency, amount) ∷ rest) =
    throw_if (Money.is_negative amount) negative_external
    >> with_external_snapshot
        (record m { external_snapshot = insert currency amount m.external_snapshot }) rest

-- sourceBreakdownOf
unfoldable pub source_breakdown_of : Position → SourceQuantities
source_breakdown_of p = elim p.source_quantities [
  | some sq ↦ sq
  | none ↦ elim p.source [
    | bot ↦ record { bot_quantity = p.quantity; external_quantity = Money.zero }
    | external_authorized ↦ record { bot_quantity = Money.zero; external_quantity = p.quantity }
  ]
]

unfoldable pub merge_external_breakdown : Position → Money → SourceQuantities
merge_external_breakdown p added =
    let sq = source_breakdown_of p in
    record {
      bot_quantity = sq.bot_quantity;
      external_quantity = Money.add sq.external_quantity added;
    }

-- The position that an authorization leaves.
unfoldable pub authorized_position : String → Money → Option Position → Result Position
authorized_position symbol quantity (some managed) = do
  let new_quantity = Money.add managed.quantity quantity
  average ←
      (if Money.is_zero new_quantity
        then ok Money.zero
        else Money.div managed.cost_basis new_quantity)
  ok (record managed {
    quantity = new_quantity;
    average_entry_price = average;
    source_quantities = some (merge_external_breakdown managed quantity);
  })
authorized_position symbol quantity none = ok (record {
  symbol = symbol;
  quantity = quantity;
  average_entry_price = Money.zero;
  cost_basis = Money.zero;
  realized_pnl = Money.zero;
  fees_paid = Money.zero;
  entry_anchor_price = none;
  source = external_authorized;
  source_quantities = some (record { bot_quantity = Money.zero; external_quantity = quantity });
})

unfoldable pub authorize_external : Portfolio → String → Result Portfolio
authorize_external m symbol = do
  let quantity = external m symbol
  throw_if (Money.is_negative quantity) negative_external
  if Money.is_zero quantity
      then (if is_authorized_external m symbol then ok m else err no_external)
      else (do
        p ← authorized_position symbol quantity (position m symbol)
        ok (record m {
          authorized_external = include symbol m.authorized_external;
          positions = insert symbol p m.positions;
          external_snapshot = erase symbol m.external_snapshot;
        }))

unfoldable pub adopt_external_cash : Portfolio → String → Money → Result Portfolio
unfolding track_peak
adopt_external_cash m currency amount =
    (if Money.is_positive amount then ok tt else err bad_amount)
    >> ok (
        track_peak
          (record m { cash = insert currency (Money.add (cash m currency) amount) m.cash }))
