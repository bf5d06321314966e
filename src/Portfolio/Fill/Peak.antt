-- ===== src/Portfolio/Fill/Peak.antt =====
-- portfolio/Portfolio.ts: the peak of equity that `applyFill` tracks for the drawdown.
use cryptotradingbot.Common.{
  ℕ, ◌≡◌, refl, subst, Option, none, some, String, arith, inl, inr, ◌⊎◌, Bool-cases,
}
use cryptotradingbot.Common.Int.{◌≤ℤ◌, ltb_ℤ}
use cryptotradingbot.Common.Result.{ok}
use cryptotradingbot.Money.{Money}
use cryptotradingbot.Portfolio.Model.{Portfolio, Side, buy, sell}
use cryptotradingbot.Portfolio.Equity.{track_peak, equity_of}
use cryptotradingbot.Portfolio.Fill.{apply_fill, book_daily, realized_on}
use cryptotradingbot.Portfolio.Fill.Inversion.{
  bought, apply_buy-ok, sold, apply_sell-ok, apply_fill_buy-ok, apply_fill_sell-ok,
}

-- The peak is the greater of the one before and the equity now.
abbrev IsPeak : Money → Portfolio → Type 0
IsPeak before n =
    let now = equity_of n.cash n.positions in
    (before ≤ℤ n.peak_equity)
    × (now ≤ℤ n.peak_equity)
    × ((n.peak_equity ≡ before) ⊎ (n.peak_equity ≡ now))

track_peak-IsPeak : (m : Portfolio) → IsPeak m.peak_equity (track_peak m)
unfolding track_peak
track_peak-IsPeak m = (
  ground arith,
  ground arith,
  elim (Bool-cases (ltb_ℤ m.peak_equity (equity_of m.cash m.positions))) [
    | inl e ↦ inr (ground (arith, e))
    | inr e ↦ inl (ground (arith, e))
  ],
)

book_daily-peak :
    (m : Portfolio) (now_ms : Option ℕ) (r : Money)
    → (book_daily m now_ms r).peak_equity ≡ m.peak_equity
unfolding book_daily
book_daily-peak m none r = refl
book_daily-peak m (some t) r = refl

-- `applyFill` leaves as peak the greater of the peak before and the equity afterwards: the peak never
-- falls, and it is never below equity.
apply_fill-IsPeak :
    (m : Portfolio) (symbol : String) (side : Side) (quantity price fee : Money) (now_ms : Option ℕ)
    (anchor : Option Money) (n : Portfolio)
    → apply_fill m symbol side quantity price fee now_ms anchor ≡ ok n
    → IsPeak m.peak_equity n
apply_fill-IsPeak m symbol buy quantity price fee now_ms anchor n h =
    let (next, _, h1, h2) = apply_fill_buy-ok m symbol quantity price fee now_ms anchor n h in
    let (p, entry, _, _, h5) = apply_buy-ok m symbol quantity price fee anchor next h1 in
    rw (h2, h5) (track_peak-IsPeak (bought m symbol p entry _ fee))
apply_fill-IsPeak m symbol sell quantity price fee now_ms anchor n h =
    let (next, _, h1, h2) = apply_fill_sell-ok m symbol quantity price fee now_ms anchor n h in
    let (x, entry, _, _, _, _, h5) = apply_sell-ok m symbol quantity price fee now_ms next h1 in
    let raw = sold m symbol x entry quantity price fee in
    let realized = realized_on x quantity price fee in
    let same = book_daily-peak raw now_ms realized in
    subst (λ x. IsPeak x n) same (rw (h2, h5) (track_peak-IsPeak (book_daily raw now_ms realized)))
