-- ===== src/Reconcile/Balances/Agreement.antt =====
-- reconcile/balanceReconciliation.ts: when nothing is found.
use cryptotradingbot.Common.{
  ◌≡◌, refl, false, inl, inr, some, List, [], ◌∷◌, ◌++◌, String, arith, Bool-cases, Option-cases,
}
use cryptotradingbot.Common.Int.{pos, neg, ◌-ℤ◌, ◌<ℤ◌, ◌≤ℤ◌, ltb_ℤ, int_laws}
use cryptotradingbot.Common.Dict.{Dict, lookup, All}
use cryptotradingbot.Money
use cryptotradingbot.Money.{Money}
use cryptotradingbot.Portfolio.Model.{Balance}
use cryptotradingbot.Reconcile.Model.{BalanceFinding}
use cryptotradingbot.Reconcile.Balances.{
  distance, expected_finding, expected_findings, is_unexpected, unexpected_findings, by_currency,
  reconcile_balances,
}
use cryptotradingbot.Reconcile.Balances.Reported.{
  IsReported, by_currency-IsReported, IsReported-by_currency,
}

-- The exchange reports the currency, within the tolerance.
abbrev pub IsMatched : List Balance → Money → String → Money → Type 0
IsMatched observed tolerance currency expected =
    (b : Balance) × IsReported currency b observed
    × (expected -ℤ b.available ≤ℤ tolerance)
    × (b.available -ℤ expected ≤ℤ tolerance)

abbrev IsExpected : Dict Money → String → Type 0
IsExpected expected currency = (amount : Money) × (lookup currency expected ≡ some amount)

-- Whatever is held is expected.
abbrev pub AllExpected : Dict Money → List Balance → Type 0
AllExpected expected [] = Unit
AllExpected expected (b ∷ observed) =
    (pos 0 <ℤ b.total → IsExpected expected b.currency) × AllExpected expected observed

distance_bounds :
    (a b tolerance : Money)
    → ltb_ℤ tolerance (distance a b) ≡ false
    → (a -ℤ b ≤ℤ tolerance) × (b -ℤ a ≤ℤ tolerance)
distance_bounds a b t h = elim (Bool-cases (Money.is_negative (a -ℤ b))) [
  | inl e ↦
      let n : a -ℤ b <ℤ pos 0 = ground (arith, e) in
      let h' : neg (a -ℤ b) ≤ℤ t = ground (arith, rw e at h) in
      (omega (int_laws, n, h'), omega (int_laws, h'))
  | inr e ↦
      let p : pos 0 ≤ℤ a -ℤ b = ground (arith, e) in
      let h' : a -ℤ b ≤ℤ t = ground (arith, rw e at h) in (h', omega (int_laws, p, h'))
]

bounds-distance :
    (a b tolerance : Money)
    → a -ℤ b ≤ℤ tolerance
    → b -ℤ a ≤ℤ tolerance
    → ltb_ℤ tolerance (distance a b) ≡ false
bounds-distance a b t h k = elim (Bool-cases (Money.is_negative (a -ℤ b))) [
  | inl e ↦ let h' : neg (a -ℤ b) ≤ℤ t = omega (int_laws, k) in rw e (ground (arith, h'))
  | inr e ↦ rw e (ground (arith, h))
]

both_empty : (a b : List BalanceFinding) → a ++ b ≡ [] → (a ≡ []) × (b ≡ [])
both_empty [] b h = (refl, h)
both_empty (x ∷ a) b h = cc

expected_findings-IsMatched :
    (observed : List Balance) (tolerance : Money) (expected : Dict Money)
    → expected_findings (by_currency observed) tolerance expected ≡ []
    → All (IsMatched observed tolerance) expected
unfolding expected_findings expected_finding
expected_findings-IsMatched observed tolerance [] h = tt
expected_findings-IsMatched observed tolerance ((c, e) ∷ rest) h =
    let found = by_currency observed in
    let (now, later) =
      both_empty (expected_finding c e (lookup c found) tolerance)
        (expected_findings found tolerance rest) h in
    (
      elim (Option-cases (lookup c found)) [
        | inl l ↦ absurd (ground (arith, l, now))
        | inr (b, l) ↦
            let near : ltb_ℤ tolerance (distance e b.available) ≡ false = ground (arith, l, now) in
            let (above, below) = distance_bounds e b.available tolerance near in
            (b, by_currency-IsReported c b observed l, above, below)
      ],
      expected_findings-IsMatched observed tolerance rest later,
    )

IsMatched-expected_findings :
    (observed : List Balance) (tolerance : Money) (expected : Dict Money)
    → All (IsMatched observed tolerance) expected
    → expected_findings (by_currency observed) tolerance expected ≡ []
unfolding expected_findings expected_finding
IsMatched-expected_findings observed tolerance [] h = refl
IsMatched-expected_findings observed tolerance ((c, e) ∷ rest) h =
    let (b, r, x, y) = h.0 in
    rw (IsReported-by_currency c b observed r, bounds-distance e b.available tolerance x y)
      (IsMatched-expected_findings observed tolerance rest h.1)

is_unexpected-IsExpected :
    (expected : Dict Money) (b : Balance)
    → is_unexpected expected b ≡ false
    → pos 0 <ℤ b.total
    → IsExpected expected b.currency
is_unexpected-IsExpected expected b h p = elim (Option-cases (lookup b.currency expected)) [
  | inl e ↦ absurd (ground (arith, e, h, p))
  | inr known ↦ known
]

IsExpected-is_unexpected :
    (expected : Dict Money) (b : Balance)
    → (pos 0 <ℤ b.total → IsExpected expected b.currency)
    → is_unexpected expected b ≡ false
IsExpected-is_unexpected expected b h = elim (Bool-cases (Money.is_positive b.total)) [
  | inl p ↦ let (amount, e) = h (ground (arith, p)) in ground (arith, e)
  | inr z ↦ ground (arith, z)
]

unexpected_findings-AllExpected :
    (expected : Dict Money) (observed : List Balance)
    → unexpected_findings expected observed ≡ []
    → AllExpected expected observed
unfolding unexpected_findings
unexpected_findings-AllExpected expected [] h = tt
unexpected_findings-AllExpected expected (b ∷ observed) h =
    elim (Bool-cases (is_unexpected expected b)) [
      | inl e ↦ absurd (ground (arith, e, h))
      | inr e ↦ (
        is_unexpected-IsExpected expected b e,
        unexpected_findings-AllExpected expected observed (rw e at h),
      )
    ]

AllExpected-unexpected_findings :
    (expected : Dict Money) (observed : List Balance)
    → AllExpected expected observed
    → unexpected_findings expected observed ≡ []
unfolding unexpected_findings
AllExpected-unexpected_findings expected [] h = refl
AllExpected-unexpected_findings expected (b ∷ observed) h =
    rw (IsExpected-is_unexpected expected b h.0)
      (AllExpected-unexpected_findings expected observed h.1)

-- `reconcileBalances` finds nothing exactly when the exchange reports every currency that the bot
-- expects, available within the tolerance on either side, and no positive total in a currency that
-- the bot does not expect. Of two balances in one currency the exchange reports the last.
pub reconcile_balances-agreement :
    (expected : Dict Money) (observed : List Balance) (tolerance : Money)
    → (reconcile_balances expected observed tolerance ≡ []
        → All (IsMatched observed tolerance) expected × AllExpected expected observed)
      × (All (IsMatched observed tolerance) expected × AllExpected expected observed
          → reconcile_balances expected observed tolerance ≡ [])
unfolding reconcile_balances
reconcile_balances-agreement expected observed tolerance = (
  λ h.
      let (a, b) =
        both_empty (expected_findings (by_currency observed) tolerance expected)
          (unexpected_findings expected observed) h in
      (
        expected_findings-IsMatched observed tolerance expected a,
        unexpected_findings-AllExpected expected observed b,
      ),
  λ h.
      rw (IsMatched-expected_findings observed tolerance expected h.0)
        (AllExpected-unexpected_findings expected observed h.1),
)
