-- ===== src/Portfolio/Fill/Frame.antt =====
-- What `applyFill` of portfolio/Portfolio.ts leaves alone: all that is neither cash, position nor P&L.
use cryptotradingbot.Common.{ℕ, ◌≡◌, ◌∙◌, Option, none, some, String, arith}
use cryptotradingbot.Common.Result.{ok}
use cryptotradingbot.Money.{Money}
use cryptotradingbot.Portfolio.Model.{Portfolio, Position, Side, buy, sell}
use cryptotradingbot.Portfolio.Equity.{track_peak}
use cryptotradingbot.Portfolio.Fill.{book_daily, apply_fill}
use cryptotradingbot.Portfolio.Fill.Inversion.{
  bought, sold, apply_buy-ok, apply_sell-ok, apply_fill_buy-ok, apply_fill_sell-ok,
}

-- The same but for cash, positions and P&L.
pub record SameLedgers (m n : Portfolio) : Type 0 where
  pub reserved : n.reserved ≡ m.reserved
  pub order_reservations : n.order_reservations ≡ m.order_reservations
  pub applied_executions : n.applied_executions ≡ m.applied_executions
  pub manual_settlements : n.manual_settlements ≡ m.manual_settlements
  pub live_order_attestations : n.live_order_attestations ≡ m.live_order_attestations
  pub external_snapshot : n.external_snapshot ≡ m.external_snapshot
  pub authorized_external : n.authorized_external ≡ m.authorized_external

track_peak-SameLedgers : (m : Portfolio) → SameLedgers m (track_peak m)
unfolding track_peak
track_peak-SameLedgers m = ground arith

book_daily-SameLedgers :
    (m : Portfolio) (now_ms : Option ℕ) (r : Money) → SameLedgers m (book_daily m now_ms r)
unfolding book_daily
book_daily-SameLedgers m none r = ground arith
book_daily-SameLedgers m (some t) r = ground arith

SameLedgers-trans : {m n o : Portfolio} → SameLedgers m n → SameLedgers n o → SameLedgers m o
SameLedgers-trans a b = record {
  reserved = b.reserved ∙ a.reserved;
  order_reservations = b.order_reservations ∙ a.order_reservations;
  applied_executions = b.applied_executions ∙ a.applied_executions;
  manual_settlements = b.manual_settlements ∙ a.manual_settlements;
  live_order_attestations = b.live_order_attestations ∙ a.live_order_attestations;
  external_snapshot = b.external_snapshot ∙ a.external_snapshot;
  authorized_external = b.authorized_external ∙ a.authorized_external;
}

bought-Same :
    (m : Portfolio) (symbol : String) (p : Position) (entry : String × Money) (cost fee : Money)
    → SameLedgers m (bought m symbol p entry cost fee)
bought-Same m symbol p entry cost fee = ground arith

sold-Same :
    (m : Portfolio) (symbol : String) (x : Position) (entry : String × Money)
    (quantity price fee : Money)
    → SameLedgers m (sold m symbol x entry quantity price fee)
sold-Same m symbol x entry quantity price fee = ground arith

-- `applyFill` touches neither reservations nor the ledgers of what was accounted.
pub apply_fill-SameLedgers :
    (m : Portfolio) (symbol : String) (side : Side) (quantity price fee : Money) (now_ms : Option ℕ)
    (anchor : Option Money) (n : Portfolio)
    → apply_fill m symbol side quantity price fee now_ms anchor ≡ ok n
    → SameLedgers m n
apply_fill-SameLedgers m symbol buy quantity price fee now_ms anchor n h =
    let (next, _, h1, h2) = apply_fill_buy-ok m symbol quantity price fee now_ms anchor n h in
    let (p, entry, _, _, h5) = apply_buy-ok m symbol quantity price fee anchor next h1 in
    rw (h2, h5) (SameLedgers-trans (bought-Same m symbol p entry _ fee) (track_peak-SameLedgers _))
apply_fill-SameLedgers m symbol sell quantity price fee now_ms anchor n h =
    let (next, _, h1, h2) = apply_fill_sell-ok m symbol quantity price fee now_ms anchor n h in
    let (x, entry, _, _, _, _, h5) = apply_sell-ok m symbol quantity price fee now_ms next h1 in
    let raw = sold m symbol x entry quantity price fee in
    rw (h2, h5)
      (SameLedgers-trans (sold-Same m symbol x entry quantity price fee)
        (SameLedgers-trans (book_daily-SameLedgers raw now_ms _) (track_peak-SameLedgers _)))
