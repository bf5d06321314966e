-- ===== src/Portfolio/Fill/Conserve.antt =====
-- `applyFill` of portfolio/Portfolio.ts creates no value: what a fill does to equity and its peak.
use cryptotradingbot.Common.{
  ℕ, true, ◌≡◌, refl, ap, ◌∙◌, inl, inr, Option, none, some, String, Bool-cases, arith,
  if◌then◌else◌, eq_refl,
}
use cryptotradingbot.Common.Int.{pos, ◌+ℤ◌, ◌-ℤ◌, int_laws, parts_of_eq}
use cryptotradingbot.Common.Dict.{
  Dict, lookup, insert, erase, lookup-insert_self, lookup-erase, insert-Keyed, Keyed,
}
use cryptotradingbot.Common.Result.{ok, >>=-eq-ok, throw_if-ok, bad_anchor}
use cryptotradingbot.Money
use cryptotradingbot.Money.{Money}
use cryptotradingbot.Portfolio.Model.{Portfolio, Position, Side, buy, sell}
use cryptotradingbot.Portfolio.Equity.{position, track_peak, equity_of}
use cryptotradingbot.Portfolio.Sums.{
  total, share, total-insert, total-erase, own, cost_of, equity_of_lem,
}
use cryptotradingbot.Portfolio.Fill.{
  is_bad_anchor, bought_position, sold_position, realized_on, book_daily, apply_fill,
}
use cryptotradingbot.Portfolio.Fill.Inversion.{
  quote_cash-ok, bought, apply_buy-ok, sold, apply_sell-ok, apply_fill_buy-ok, apply_fill_sell-ok,
}

abbrev pub equity : Portfolio → Money
equity m = equity_of m.cash m.positions

-- The cost at which a symbol is carried, 0 if it is not held.
abbrev pub carried : Portfolio → String → Money
carried m symbol = share cost_of symbol m.positions

bought_position-cost :
    (symbol : String) (quantity cost fee : Money) (anchor : Option Money) (held : Option Position)
    (p : Position)
    → bought_position symbol quantity cost fee anchor held ≡ ok p
    → p.cost_basis ≡ (elim held as (λ _. Money) [ none ↦ pos 0 | some e ↦ e.cost_basis ]) +ℤ cost
unfolding bought_position
bought_position-cost symbol quantity cost fee anchor none p h =
    let (_, h1) = throw_if-ok (is_bad_anchor anchor) bad_anchor _ h in
    let (average, h2, h3) = >>=-eq-ok (Money.div cost quantity) _ h1 in grind (int_laws, h3)
bought_position-cost symbol quantity cost fee anchor (some e) p h =
    let (average, h2, h3) =
      >>=-eq-ok (Money.div (Money.add e.cost_basis cost) (Money.add e.quantity quantity)) _ h in
    ground (arith, h3)

track_peak-equity : (m : Portfolio) → equity (track_peak m) ≡ equity m
unfolding track_peak
track_peak-equity m = ground arith

book_daily-equity :
    (m : Portfolio) (now_ms : Option ℕ) (r : Money) → equity (book_daily m now_ms r) ≡ equity m
unfolding book_daily
book_daily-equity m none r = refl
book_daily-equity m (some t) r = refl

bought-equity :
    (m : Portfolio) (symbol : String) (p : Position) (entry : String × Money) (cost fee : Money)
    → p.cost_basis ≡ carried m symbol +ℤ cost
    → lookup entry.0 m.cash ≡ some entry.1
    → equity (bought m symbol p entry cost fee) ≡ equity m
bought-equity m symbol p entry cost fee hp he = grind (
  int_laws,
  equity_of_lem (insert entry.0 (entry.1 -ℤ cost) m.cash) (insert symbol p m.positions),
  equity_of_lem m.cash m.positions,
  total-insert own entry.0 (entry.1 -ℤ cost) m.cash,
  total-insert cost_of symbol p m.positions,
)

-- A BUY turns cash into cost basis, its fee included: equity stays.
buy-equity :
    (m : Portfolio) (symbol : String) (quantity price fee : Money) (now_ms : Option ℕ)
    (anchor : Option Money) (n : Portfolio)
    → apply_fill m symbol buy quantity price fee now_ms anchor ≡ ok n
    → equity n ≡ equity m
buy-equity m symbol quantity price fee now_ms anchor n h =
    let (next, _, h1, h2) = apply_fill_buy-ok m symbol quantity price fee now_ms anchor n h in
    let (p, entry, h3, h4, h5) = apply_buy-ok m symbol quantity price fee anchor next h1 in
    let cost = Money.add (Money.mul quantity price) fee in
    let paid = bought_position-cost symbol quantity cost fee anchor (position m symbol) p h3 in
    rw (h2, track_peak-equity next, h5)
      (bought-equity m symbol p entry cost fee paid (quote_cash-ok m symbol entry h4).1)

kept_cost :
    (positions : Dict Position) (symbol : String) (p : Position)
    → share cost_of symbol (insert symbol p positions) ≡ p.cost_basis
kept_cost positions symbol p = ground (arith, lookup-insert_self symbol p positions)

dropped_cost :
    (positions : Dict Position) (symbol : String) (p : Position)
    → Keyed positions
    → share cost_of symbol (erase symbol (insert symbol p positions)) ≡ pos 0
dropped_cost positions symbol p k = ground (
  arith,
  lookup-erase symbol symbol (insert symbol p positions) (insert-Keyed symbol p positions k),
  eq_refl symbol,
)

sold_out :
    (e : Position) (quantity price fee : Money)
    → let p = sold_position e quantity price fee in
      Money.is_zero p.quantity ≡ true → p.cost_basis ≡ pos 0
unfolding sold_position
sold_out e quantity price fee h = rw h

-- The positions after a SELL.
abbrev pub left_positions : Dict Position → String → Position → Dict Position
left_positions positions symbol p =
    if Money.is_zero p.quantity
    then erase symbol (insert symbol p positions)
    else insert symbol p positions

left-cost :
    (positions : Dict Position) (symbol : String) (p : Position)
    → Keyed positions
    → (Money.is_zero p.quantity ≡ true → p.cost_basis ≡ pos 0)
    → total cost_of (left_positions positions symbol p) +ℤ share cost_of symbol positions
      ≡ total cost_of positions +ℤ share cost_of symbol (left_positions positions symbol p)
left-cost positions symbol p k z = elim (Bool-cases (Money.is_zero p.quantity)) [
  | inl e ↦ rw e (
      omega (
        int_laws,
        parts_of_eq (total-erase cost_of symbol (insert symbol p positions)),
        parts_of_eq (total-insert cost_of symbol p positions),
        parts_of_eq (kept_cost positions symbol p),
        parts_of_eq (z e),
        parts_of_eq (dropped_cost positions symbol p k),
      ))
  | inr e ↦ rw (e, kept_cost positions symbol p) (total-insert cost_of symbol p positions)
]

cash_share :
    (m : Portfolio) (entry : String × Money)
    → lookup entry.0 m.cash ≡ some entry.1
    → share own entry.0 m.cash ≡ entry.1
cash_share m entry he = ground (arith, he)

-- A SELL books its proceeds against the cost that it takes off the position.
sold-equity :
    (m : Portfolio) (symbol : String) (e : Position) (entry : String × Money)
    (quantity price fee : Money)
    → Keyed m.positions
    → lookup entry.0 m.cash ≡ some entry.1
    → let n = sold m symbol e entry quantity price fee in
      equity n +ℤ carried m symbol
      ≡ equity m +ℤ (Money.mul quantity price -ℤ fee) +ℤ carried n symbol
sold-equity m symbol e entry quantity price fee k he =
    let n = sold m symbol e entry quantity price fee in
    let proceeds = Money.mul quantity price -ℤ fee in
    omega (
      int_laws,
      parts_of_eq (equity_of_lem n.cash n.positions),
      parts_of_eq (equity_of_lem m.cash m.positions),
      parts_of_eq (total-insert own entry.0 (entry.1 +ℤ proceeds) m.cash),
      parts_of_eq (cash_share m entry he),
      parts_of_eq (
          left-cost m.positions symbol (sold_position e quantity price fee) k
            (sold_out e quantity price fee)),
    )

-- What a fill adds to equity: nothing for a BUY, and for a SELL its proceeds less the cost that it
-- takes off the position.
abbrev pub gain : Side → Portfolio → Portfolio → String → Money → Money → Money → Money
gain buy m n symbol quantity price fee = pos 0
gain sell m n symbol quantity price fee =
    Money.mul quantity price -ℤ fee -ℤ (carried m symbol -ℤ carried n symbol)

book_daily-carried :
    (m : Portfolio) (now_ms : Option ℕ) (r : Money) (symbol : String)
    → carried (book_daily m now_ms r) symbol ≡ carried m symbol
unfolding book_daily
book_daily-carried m none r symbol = refl
book_daily-carried m (some t) r symbol = refl

track_peak-carried :
    (m : Portfolio) (symbol : String) → carried (track_peak m) symbol ≡ carried m symbol
unfolding track_peak
track_peak-carried m symbol = ground arith

-- `applyFill` changes equity by exactly its gain, on either side, fees included.
pub apply_fill-equity :
    (m : Portfolio) (symbol : String) (side : Side) (quantity price fee : Money) (now_ms : Option ℕ)
    (anchor : Option Money) (n : Portfolio)
    → Keyed m.positions
    → apply_fill m symbol side quantity price fee now_ms anchor ≡ ok n
    → equity n ≡ equity m +ℤ gain side m n symbol quantity price fee
apply_fill-equity m symbol buy quantity price fee now_ms anchor n k h =
    omega (int_laws, parts_of_eq (buy-equity m symbol quantity price fee now_ms anchor n h))
apply_fill-equity m symbol sell quantity price fee now_ms anchor n k h =
    let (next, _, h1, h2) = apply_fill_sell-ok m symbol quantity price fee now_ms anchor n h in
    let (e, entry, h3, _, _, h4, h5) = apply_sell-ok m symbol quantity price fee now_ms next h1 in
    let raw = sold m symbol e entry quantity price fee in
    let realized = realized_on e quantity price fee in
    let value =
      ap equity (h2 ∙ ap track_peak h5)
      ∙ track_peak-equity (book_daily raw now_ms realized)
      ∙ book_daily-equity raw now_ms realized in
    let cost =
      ap (λ x. carried x symbol) (h2 ∙ ap track_peak h5)
      ∙ track_peak-carried (book_daily raw now_ms realized) symbol
      ∙ book_daily-carried raw now_ms realized symbol in
    omega (
      int_laws,
      parts_of_eq value,
      parts_of_eq cost,
      parts_of_eq
          (sold-equity m symbol e entry quantity price fee k (quote_cash-ok m symbol entry h4).1),
    )
