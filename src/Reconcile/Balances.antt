-- ===== src/Reconcile/Balances.antt =====
-- reconcile/balanceReconciliation.ts: the balances that the bot expects against the exchange's.
pub mod Reported
pub mod Agreement
use cryptotradingbot.Common.{
  ◌≡◌, refl, sym, ◌∙◌, ap, Bool, true, false, not, ◌&&◌, inl, inr, Option, none, some, List, [],
  ◌∷◌, ◌++◌, String, arith, if◌then◌else◌, Bool-cases, Option-cases,
}
use cryptotradingbot.Common.Int.{ℤ, pos, neg, ◌-ℤ◌, ◌<ℤ◌, ◌≤ℤ◌, ltb_ℤ, int_laws}
use cryptotradingbot.Common.Dict.{Dict, lookup, contains, insert, All}
use cryptotradingbot.Money
use cryptotradingbot.Money.{Money}
use cryptotradingbot.Portfolio.Model.{Balance}
use cryptotradingbot.Reconcile.Model.{BalanceFinding}

-- `Money.fromString('0.00000001')`
abbrev pub default_tolerance : Money
default_tolerance = pos 1

-- `new Map(observed.map((b) => [b.currency, b]))`: the last of two balances in a currency counts.
unfoldable pub put_all : Dict Balance → List Balance → Dict Balance
put_all found [] = found
put_all found (b ∷ observed) = put_all (insert b.currency b found) observed

unfoldable pub by_currency : List Balance → Dict Balance
unfolding put_all
by_currency observed = put_all [] observed

abbrev pub distance : Money → Money → Money
distance a b =
    let diff = Money.sub a b in if Money.is_negative diff then Money.negate diff else diff

unfoldable pub expected_finding : String → Money → Option Balance → Money → List BalanceFinding
expected_finding currency expected none tolerance =
    record { currency = currency; expected = some expected; observed = none; mismatch = true } ∷ []
expected_finding currency expected (some exchange) tolerance =
    if ltb_ℤ tolerance (distance expected exchange.available)
    then record {
      currency = currency;
      expected = some expected;
      observed = some exchange.available;
      mismatch = true;
    }
      ∷ []
    else []

unfoldable pub expected_findings : Dict Balance → Money → Dict Money → List BalanceFinding
unfolding expected_finding
expected_findings found tolerance [] = []
expected_findings found tolerance ((currency, expected) ∷ rest) =
    expected_finding currency expected (lookup currency found) tolerance
    ++ expected_findings found tolerance rest

-- `!expected.has(b.currency) && b.total.isPositive()`
abbrev pub is_unexpected : Dict Money → Balance → Bool
is_unexpected expected b = not (contains b.currency expected) && Money.is_positive b.total

unfoldable pub unexpected_findings : Dict Money → List Balance → List BalanceFinding
unexpected_findings expected [] = []
unexpected_findings expected (b ∷ observed) =
    let rest = unexpected_findings expected observed in
    if is_unexpected expected b
    then record { currency = b.currency; expected = none; observed = some b.total; mismatch = true }
      ∷ rest
    else rest

unfoldable pub reconcile_balances : Dict Money → List Balance → Money → List BalanceFinding
unfolding by_currency expected_findings unexpected_findings
reconcile_balances expected observed tolerance =
    expected_findings (by_currency observed) tolerance expected
    ++ unexpected_findings expected observed
