-- ===== src/Portfolio/Fill/Solvent.antt =====
-- portfolio/Portfolio.ts: when `applyFill` leaves at least as much cash as is reserved.
use cryptotradingbot.Common.{
  ℕ, ◌≡◌, ap, ◌∙◌, subst, inl, inr, Option, some, none, String, str_eq, eq_iff, Bool-cases, arith,
}
use cryptotradingbot.Common.Int.{pos, ◌≤ℤ◌, ◌-ℤ◌, ◌+ℤ◌, int_laws, parts_of_eq}
use cryptotradingbot.Common.Dict.{get_or, insert}
use cryptotradingbot.Common.Result.{ok}
use cryptotradingbot.Money
use cryptotradingbot.Money.{Money}
use cryptotradingbot.Portfolio.Model.{Portfolio, buy, sell}
use cryptotradingbot.Portfolio.Ids.{quote_of}
use cryptotradingbot.Portfolio.Equity.{cash, reserved, track_peak}
use cryptotradingbot.Portfolio.Reserve.{deployable_quote}
use cryptotradingbot.Portfolio.Reserve.Steps.{get_or-insert}
use cryptotradingbot.Portfolio.Reserve.Deployable.{deployable-cases}
use cryptotradingbot.Portfolio.Fill.{book_daily, apply_fill}
use cryptotradingbot.Portfolio.Fill.Frame.{apply_fill-SameLedgers}
use cryptotradingbot.Portfolio.Fill.Inversion.{
  sold, quote_cash-ok, apply_buy-ok, apply_sell-ok, apply_fill_buy-ok, apply_fill_sell-ok,
}

-- No more is reserved in a currency than there is of it.
abbrev pub IsSolvent : Portfolio → Type 0
IsSolvent m = (c : String) → reserved m c ≤ℤ cash m c

-- One entry of the cash replaced.
paid-IsSolvent :
    (m : Portfolio) (k : String) (v : Money)
    → IsSolvent m
    → reserved m k ≤ℤ v
    → (c : String) → reserved m c ≤ℤ get_or c (insert k v m.cash) (pos 0)
paid-IsSolvent m k v solvent enough c = elim (Bool-cases (str_eq k c)) [
  | inl e ↦
      rw (get_or-insert k c v m.cash, e) (subst (λ x. reserved m x ≤ℤ v) ((eq_iff k c).0 e) enough)
  | inr e ↦ rw (get_or-insert k c v m.cash, e) (solvent c)
]

track_peak-cash : (m : Portfolio) → (track_peak m).cash ≡ m.cash
unfolding track_peak
track_peak-cash m = ground arith

book_daily-cash :
    (m : Portfolio) (now_ms : Option ℕ) (r : Money) → (book_daily m now_ms r).cash ≡ m.cash
unfolding book_daily
book_daily-cash m none r = ground arith
book_daily-cash m (some t) r = ground arith

-- A portfolio with the reservations of `m` and one entry of its cash replaced.
moved-IsSolvent :
    (m n : Portfolio) (k : String) (v : Money)
    → n.reserved ≡ m.reserved
    → n.cash ≡ insert k v m.cash
    → IsSolvent m
    → reserved m k ≤ℤ v
    → IsSolvent n
moved-IsSolvent m n k v same_reserved new_cash solvent enough c =
    rw (same_reserved, new_cash) (paid-IsSolvent m k v solvent enough c)

left_over :
    (held_back held amount cost most : Money)
    → held_back ≤ℤ held
    → held ≡ amount
    → (pos 0 ≤ℤ held -ℤ held_back → most ≡ held -ℤ held_back)
    → cost ≤ℤ most
    → held_back ≤ℤ amount -ℤ cost
left_over held_back held amount cost most covered e full within =
    let most_is = full (omega (int_laws, covered)) in
    omega (int_laws, covered, parts_of_eq e, parts_of_eq most_is, within)

topped_up :
    (held_back held amount gross fee : Money)
    → held_back ≤ℤ held
    → held ≡ amount
    → fee ≤ℤ gross
    → held_back ≤ℤ amount +ℤ (gross -ℤ fee)
topped_up held_back held amount gross fee covered e paid =
    omega (int_laws, covered, parts_of_eq e, paid)

-- A BUY of no more than is deployable in its quote currency.
pub apply_fill_buy-IsSolvent :
    (m : Portfolio) (symbol : String) (quantity price fee : Money) (now_ms : Option ℕ)
    (anchor : Option Money) (n : Portfolio)
    → apply_fill m symbol buy quantity price fee now_ms anchor ≡ ok n
    → ((k : String)
        → quote_of symbol ≡ some k
        → Money.add (Money.mul quantity price) fee ≤ℤ deployable_quote m k)
    → IsSolvent m
    → (n.reserved ≡ m.reserved) × IsSolvent n
apply_fill_buy-IsSolvent m symbol quantity price fee now_ms anchor n h within solvent =
    let same =
      (apply_fill-SameLedgers m symbol buy quantity price fee now_ms anchor n h).reserved in
    let (next, _, h1, h2) = apply_fill_buy-ok m symbol quantity price fee now_ms anchor n h in
    let (p, entry, _, q, h3) = apply_buy-ok m symbol quantity price fee anchor next h1 in
    let cost = Money.add (Money.mul quantity price) fee in
    let (quote, present) = quote_cash-ok m symbol entry q in
    let new_cash : n.cash ≡ insert entry.0 (Money.sub entry.1 cost) m.cash =
      ap (λ (x : Portfolio). x.cash) h2
      ∙ track_peak-cash next
      ∙ ap (λ (x : Portfolio). x.cash) h3 in
    let held : cash m entry.0 ≡ entry.1 = ground (arith, present) in
    (
      same,
      moved-IsSolvent m n entry.0 _ same new_cash solvent (
          left_over (reserved m entry.0) (cash m entry.0) entry.1 cost (deployable_quote m entry.0)
            (solvent entry.0) held (deployable-cases m entry.0).3 (within entry.0 quote)),
    )

-- A SELL whose fee is at most its proceeds.
pub apply_fill_sell-IsSolvent :
    (m : Portfolio) (symbol : String) (quantity price fee : Money) (now_ms : Option ℕ)
    (anchor : Option Money) (n : Portfolio)
    → apply_fill m symbol sell quantity price fee now_ms anchor ≡ ok n
    → fee ≤ℤ Money.mul quantity price
    → IsSolvent m
    → (n.reserved ≡ m.reserved) × IsSolvent n
apply_fill_sell-IsSolvent m symbol quantity price fee now_ms anchor n h covered solvent =
    let same =
      (apply_fill-SameLedgers m symbol sell quantity price fee now_ms anchor n h).reserved in
    let (next, _, h1, h2) = apply_fill_sell-ok m symbol quantity price fee now_ms anchor n h in
    let (x, entry, _, _, _, q, h3) = apply_sell-ok m symbol quantity price fee now_ms next h1 in
    let (_, present) = quote_cash-ok m symbol entry q in
    let proceeds = Money.sub (Money.mul quantity price) fee in
    let new_cash : n.cash ≡ insert entry.0 (Money.add entry.1 proceeds) m.cash =
      ap (λ (y : Portfolio). y.cash) h2
      ∙ track_peak-cash next
      ∙ ap (λ (y : Portfolio). y.cash) h3
      ∙ book_daily-cash (sold m symbol x entry quantity price fee) now_ms _ in
    let held : cash m entry.0 ≡ entry.1 = ground (arith, present) in
    (
      same,
      moved-IsSolvent m n entry.0 _ same new_cash solvent (
          topped_up (reserved m entry.0) (cash m entry.0) entry.1 (Money.mul quantity price) fee
            (solvent entry.0) held covered),
    )
