-- ===== src/Portfolio/Fill/Inversion.antt =====
-- What a successful `applyFill` of portfolio/Portfolio.ts has done, step by step.
use cryptotradingbot.Common.{
  ℕ, false, ◌≡◌, inl, inr, not, Option, some, String, Option-cases, arith, if◌then◌else◌,
}
use cryptotradingbot.Common.Int.{pos, ◌<ℤ◌, ltb_ℤ}
use cryptotradingbot.Common.Dict.{lookup, insert, erase}
use cryptotradingbot.Common.Result.{
  ok, >>=-eq-ok, throw_if-ok, or_throw-ok, or_throw, no_position, exceeds_position, bad_quantity,
}
use cryptotradingbot.Money
use cryptotradingbot.Money.{Money}
use cryptotradingbot.Portfolio.Model.{Portfolio, Position, buy, sell}
use cryptotradingbot.Portfolio.Ids.{quote_of}
use cryptotradingbot.Portfolio.Equity.{position, track_peak}
use cryptotradingbot.Portfolio.Fill.{
  quote_cash, bought_position, apply_buy, sold_position, realized_on, book_daily, apply_sell,
  apply_fill,
}

pub quote_cash-ok :
    (m : Portfolio) (symbol : String) (entry : String × Money)
    → quote_cash m symbol ≡ ok entry
    → (quote_of symbol ≡ some entry.0) × (lookup entry.0 m.cash ≡ some entry.1)
unfolding quote_cash
quote_cash-ok m symbol entry h = elim (Option-cases (quote_of symbol)) [
  | inl e ↦ ground (arith, e)
  | inr (c, e) ↦ elim (Option-cases (lookup c m.cash)) [
    | inl e' ↦ ground (arith, e, e')
    | inr (a, e') ↦ ground (arith, e, e')
  ]
]

-- What a BUY leaves.
abbrev pub bought : Portfolio → String → Position → String × Money → Money → Money → Portfolio
bought m symbol p entry cost fee = record m {
  positions = insert symbol p m.positions;
  cash = insert entry.0 (Money.sub entry.1 cost) m.cash;
  total_fees = Money.add m.total_fees fee;
}

pub apply_buy-ok :
    (m : Portfolio) (symbol : String) (quantity price fee : Money) (anchor : Option Money)
    (n : Portfolio)
    → apply_buy m symbol quantity price fee anchor ≡ ok n
    → let cost = Money.add (Money.mul quantity price) fee in
      (p : Position) × (entry : String × Money) × (bought_position symbol quantity cost fee anchor
          (position m symbol)
        ≡ ok p)
      × (quote_cash m symbol ≡ ok entry)
      × (n ≡ bought m symbol p entry cost fee)
unfolding apply_buy
apply_buy-ok m symbol quantity price fee anchor n h =
    let (p, hp, h1) =
      >>=-eq-ok (bought_position symbol quantity _ fee anchor (position m symbol)) _ h in
    let (entry, he, h2) = >>=-eq-ok (quote_cash m symbol) _ h1 in
    (p, entry, hp, he, ground (arith, h2))

-- What a SELL leaves, but for the daily bucket.
abbrev pub sold : Portfolio → String → Position → String × Money → Money → Money → Money → Portfolio
sold m symbol existing entry quantity price fee =
    let p = sold_position existing quantity price fee in
    record m {
      positions =
          (if Money.is_zero p.quantity
            then erase symbol (insert symbol p m.positions)
            else insert symbol p m.positions);
      cash = insert entry.0 (Money.add entry.1 (Money.sub (Money.mul quantity price) fee)) m.cash;
      realized_pnl = Money.add m.realized_pnl (realized_on existing quantity price fee);
      total_fees = Money.add m.total_fees fee;
    }

pub apply_sell-ok :
    (m : Portfolio) (symbol : String) (quantity price fee : Money) (now_ms : Option ℕ)
    (n : Portfolio)
    → apply_sell m symbol quantity price fee now_ms ≡ ok n
    → (existing : Position) × (entry : String × Money) × (position m symbol ≡ some existing)
      × (Money.is_zero existing.quantity ≡ false)
      × (ltb_ℤ existing.quantity quantity ≡ false)
      × (quote_cash m symbol ≡ ok entry)
      × (n
          ≡ book_daily
              (sold m symbol existing entry quantity price fee)
              now_ms
              (realized_on existing quantity price fee))
unfolding apply_sell
apply_sell-ok m symbol quantity price fee now_ms n h =
    let (existing, h1, h2) = >>=-eq-ok (or_throw (position m symbol) no_position) _ h in
    let (some_left, h3) = throw_if-ok (Money.is_zero existing.quantity) no_position _ h2 in
    let (enough, h4) = throw_if-ok (ltb_ℤ existing.quantity quantity) exceeds_position _ h3 in
    let (entry, h5, h6) = >>=-eq-ok (quote_cash m symbol) _ h4 in
    (
      existing,
      entry,
      or_throw-ok (position m symbol) no_position h1,
      some_left,
      enough,
      h5,
      ground (arith, h6),
    )

pub apply_fill_buy-ok :
    (m : Portfolio) (symbol : String) (quantity price fee : Money) (now_ms : Option ℕ)
    (anchor : Option Money) (n : Portfolio)
    → apply_fill m symbol buy quantity price fee now_ms anchor ≡ ok n
    → (next : Portfolio) × (pos 0 <ℤ quantity)
      × (apply_buy m symbol quantity price fee anchor ≡ ok next)
      × (n ≡ track_peak next)
unfolding apply_fill
apply_fill_buy-ok m symbol quantity price fee now_ms anchor n h =
    let (q, h1) = throw_if-ok (not (Money.is_positive quantity)) bad_quantity _ h in
    let (next, h2, h3) = >>=-eq-ok (apply_buy m symbol quantity price fee anchor) _ h1 in
    (next, ground (arith, q), h2, ground (arith, h3))

pub apply_fill_sell-ok :
    (m : Portfolio) (symbol : String) (quantity price fee : Money) (now_ms : Option ℕ)
    (anchor : Option Money) (n : Portfolio)
    → apply_fill m symbol sell quantity price fee now_ms anchor ≡ ok n
    → (next : Portfolio) × (pos 0 <ℤ quantity)
      × (apply_sell m symbol quantity price fee now_ms ≡ ok next)
      × (n ≡ track_peak next)
unfolding apply_fill
apply_fill_sell-ok m symbol quantity price fee now_ms anchor n h =
    let (q, h1) = throw_if-ok (not (Money.is_positive quantity)) bad_quantity _ h in
    let (next, h2, h3) = >>=-eq-ok (apply_sell m symbol quantity price fee now_ms) _ h1 in
    (next, ground (arith, q), h2, ground (arith, h3))
