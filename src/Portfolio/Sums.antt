-- ===== src/Portfolio/Sums.antt =====
-- Sums over the maps of portfolio/Portfolio.ts, under every update of a map.
use cryptotradingbot.Common.{◌≡◌, inl, inr, none, some, [], ◌∷◌, String, str_eq, Bool-cases}
use cryptotradingbot.Common.Int.{pos, ◌+ℤ◌, int_laws}
use cryptotradingbot.Common.Dict.{Dict, lookup, insert, erase}
use cryptotradingbot.Money.{Money}
use cryptotradingbot.Portfolio.Model.{Position}
use cryptotradingbot.Portfolio.Equity.{add_cash, add_cost, equity_of}

module _ {V : Type 0} (f : V → Money) where
  abbrev pub total : Dict V → Money
  total [] = pos 0
  total ((_, v) ∷ m) = f v +ℤ total m

  -- What one key contributes.
  abbrev pub share : String → Dict V → Money
  share k m = elim (lookup k m) [ none ↦ pos 0 | some v ↦ f v ]

  pub total-insert :
      (k : String) (v : V) (m : Dict V) → total (insert k v m) +ℤ share k m ≡ total m +ℤ f v
  unfolding insert lookup
  total-insert k v [] = omega int_laws
  total-insert k v ((j, w) ∷ m) = elim (Bool-cases (str_eq j k)) [
    | inl e ↦ grind (int_laws, e)
    | inr e ↦ grind (int_laws, e, total-insert k v m)
  ]

  pub total-erase : (k : String) (m : Dict V) → total (erase k m) +ℤ share k m ≡ total m
  unfolding erase lookup
  total-erase k [] = omega int_laws
  total-erase k ((j, w) ∷ m) = elim (Bool-cases (str_eq j k)) [
    | inl e ↦ grind (int_laws, e)
    | inr e ↦ grind (int_laws, e, total-erase k m)
  ]

abbrev pub own : Money → Money
own a = a

abbrev pub cost_of : Position → Money
cost_of p = p.cost_basis

add_cash_lem : (t : Money) (m : Dict Money) → add_cash t m ≡ t +ℤ total own m
unfolding add_cash
add_cash_lem t [] = omega int_laws
add_cash_lem t ((k, v) ∷ m) = grind (int_laws, add_cash_lem (t +ℤ v) m)

add_cost_lem : (t : Money) (m : Dict Position) → add_cost t m ≡ t +ℤ total cost_of m
unfolding add_cost
add_cost_lem t [] = omega int_laws
add_cost_lem t ((k, p) ∷ m) = grind (int_laws, add_cost_lem (t +ℤ p.cost_basis) m)

-- Equity is the cash in all currencies and the cost of all positions.
pub equity_of_lem :
    (cash : Dict Money) (positions : Dict Position)
    → equity_of cash positions ≡ total own cash +ℤ total cost_of positions
unfolding equity_of
equity_of_lem cash positions =
    grind (int_laws, add_cost_lem (add_cash (pos 0) cash) positions, add_cash_lem (pos 0) cash)
