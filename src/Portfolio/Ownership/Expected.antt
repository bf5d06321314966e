-- ===== src/Portfolio/Ownership/Expected.antt =====
-- portfolio/Portfolio.ts: `expectedAssetBalances` as a sum over positions and the external snapshot.
use cryptotradingbot.Common.{
  ◌≡◌, inl, inr, [], ◌∷◌, String, str_eq, eq_iff, Bool-cases, if◌then◌else◌,
}
use cryptotradingbot.Common.Int.{pos, ◌+ℤ◌, int_laws, parts_of_eq}
use cryptotradingbot.Common.Dict.{Dict, lookup, get_or, erase}
use cryptotradingbot.Money.{Money}
use cryptotradingbot.Portfolio.Model.{Portfolio, Position}
use cryptotradingbot.Portfolio.Ids.{base_of}
use cryptotradingbot.Portfolio.Equity.{
  credit, expect_positions, expect_external, expected_asset_balances,
}
use cryptotradingbot.Portfolio.Sums.{total}
use cryptotradingbot.Portfolio.Reserve.Steps.{get_or-moved}

-- What counts for one asset.
abbrev pub counted : String → String → Money → Money
counted base symbol amount = if str_eq (base_of symbol) base then amount else pos 0

abbrev pub held_of : String → Position → Money
held_of base p = counted base p.symbol p.quantity

abbrev pub external_of : String → Dict Money → Money
external_of base [] = pos 0
external_of base ((symbol, amount) ∷ rest) = counted base symbol amount +ℤ external_of base rest

get_or-credit :
    (base b : String) (amount : Money) (expected : Dict Money)
    → get_or b (credit base amount expected) (pos 0)
      ≡ get_or b expected (pos 0) +ℤ (if str_eq base b then amount else pos 0)
get_or-credit base b amount expected = get_or-moved expected base b amount

expect_positions_lem :
    (b : String) (expected : Dict Money) (positions : Dict Position)
    → get_or b (expect_positions expected positions) (pos 0)
      ≡ get_or b expected (pos 0) +ℤ total (held_of b) positions
unfolding expect_positions
expect_positions_lem b expected [] = omega int_laws
expect_positions_lem b expected ((k, p) ∷ rest) = omega (
  int_laws,
  parts_of_eq (expect_positions_lem b (credit (base_of p.symbol) p.quantity expected) rest),
  parts_of_eq (get_or-credit (base_of p.symbol) b p.quantity expected),
)

expect_external_lem :
    (b : String) (expected external : Dict Money)
    → get_or b (expect_external expected external) (pos 0)
      ≡ get_or b expected (pos 0) +ℤ external_of b external
unfolding expect_external
expect_external_lem b expected [] = omega int_laws
expect_external_lem b expected ((s, a) ∷ rest) = omega (
  int_laws,
  parts_of_eq (expect_external_lem b (credit (base_of s) a expected) rest),
  parts_of_eq (get_or-credit (base_of s) b a expected),
)

pub expected_asset_balances_lem :
    (m : Portfolio) (b : String)
    → get_or b (expected_asset_balances m) (pos 0)
      ≡ total (held_of b) m.positions +ℤ external_of b m.external_snapshot
unfolding expected_asset_balances lookup
expected_asset_balances_lem m b = omega (
  int_laws,
  parts_of_eq (expect_external_lem b (expect_positions [] m.positions) m.external_snapshot),
  parts_of_eq (expect_positions_lem b [] m.positions),
)

-- What leaves the snapshot with an entry.
pub external_of-erase :
    (b symbol : String) (external : Dict Money)
    → external_of b (erase symbol external) +ℤ counted b symbol (get_or symbol external (pos 0))
      ≡ external_of b external
unfolding erase lookup
external_of-erase b symbol [] = grind int_laws
external_of-erase b symbol ((s, a) ∷ rest) = elim (Bool-cases (str_eq s symbol)) [
  | inl e ↦ grind (int_laws, e, (eq_iff s symbol).0 e)
  | inr e ↦ grind (int_laws, e, external_of-erase b symbol rest)
]
