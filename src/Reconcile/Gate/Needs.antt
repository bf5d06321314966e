-- ===== src/Reconcile/Gate/Needs.antt =====
-- reconcile/preTradeGate.ts: what an order needs of each finding, and the tests that decide it.
use mathlib.Core.List.{Memᴰ}
use mathlib.Core.List.Memᴰ.{head, tail}
use cryptotradingbot.Common.{
  ◌≡◌, ◌≢◌, ◌⊎◌, refl, sym, ap, true, false, not, inl, inr, Option, none, some, List, [], ◌∷◌,
  arith, Bool-cases, String, str_eq, eq_iff, eq_refl,
}
use cryptotradingbot.Common.Int.{pos, ◌<ℤ◌}
use cryptotradingbot.Money
use cryptotradingbot.Money.{Money}
use cryptotradingbot.Portfolio.Model.{Side, buy, sell}
use cryptotradingbot.Portfolio.Ids.{base_of, quote_of}
use cryptotradingbot.Portfolio.Equity.{member}
use cryptotradingbot.Reconcile.Model.{
  ReconciliationResult, ReconciliationStatus, halted, ready, reconciliation_required, OrderFinding,
  confirmed, partially_confirmed, ExecutionFinding, CorrelationLevel, uncorrelated, proven,
  strong_but_not_proven, ambiguous, FeeDisposition, quote_fee, ReservationFinding,
  ReservationDisposition, ambiguous_reservation, retain, release, BalanceFinding,
}
use cryptotradingbot.Reconcile.Classify.{is_fee_automatable}
use cryptotradingbot.Reconcile.Classify.QuoteFee.{is_fee_automatable_lem}
use cryptotradingbot.Reconcile.Gate.{
  LivePreTradeAction, is_halt, is_cleared, is_ambiguous, is_currency, bears_on, is_positive_quote,
  order_passes, execution_passes, reservation_passes, balance_passes, quote_blockers,
}

-- Every finding of a list is as it must be.
abbrev pub Each : {A : Type 0} → (A → Type 0) → List A → Type 0
Each P [] = Unit
Each P (f ∷ findings) = P f × Each P findings

abbrev pub IsConfirmed : OrderFinding → Type 0
IsConfirmed o = (o.disposition ≡ confirmed) ⊎ (o.disposition ≡ partially_confirmed)

-- Out of the bot's orders, or proven to be of one with its fee in quote.
abbrev pub IsAttributed : ExecutionFinding → Type 0
IsAttributed e =
    (e.correlation ≡ uncorrelated) ⊎ ((e.correlation ≡ proven) × (e.fee_disposition ≡ quote_fee))

abbrev pub IsSure : ReservationFinding → Type 0
IsSure r = r.reservation ≢ ambiguous_reservation

-- The currencies that an action depends on: a SELL on the base, a BUY on the quote of the symbol and
-- the quotes that the bot trades.
abbrev Uses : LivePreTradeAction → Side → String → Type 0
Uses action sell currency = currency ≡ base_of action.symbol
Uses action buy currency =
    (quote_of action.symbol ≡ some currency) ⊎ Memᴰ currency action.quote_currencies

abbrev pub IsUnaffected : LivePreTradeAction → BalanceFinding → Type 0
IsUnaffected action b = b.mismatch ≡ true → ¬ Uses action action.side b.currency

-- What an action needs of a reconciliation.
pub record IsClear (result : ReconciliationResult) (action : LivePreTradeAction) : Type 0 where
  pub not_halted : result.status ≢ halted
  pub reads_whole : result.read_failures ≡ []
  pub orders_settled : Each IsConfirmed result.order_findings
  pub executions_cleared : Each IsAttributed result.execution_findings
  pub reservations_sure : Each IsSure result.reservation_findings
  pub no_operator : result.operator_findings ≡ []
  pub balances_agree : Each (IsUnaffected action) result.balance_findings
  pub buys_funded :
      action.side ≡ buy → (a : Money) × (action.managed_quote_deployable ≡ some a) × (pos 0 <ℤ a)

pub is_settled-IsConfirmed : (o : OrderFinding) → order_passes o ≡ true → IsConfirmed o
is_settled-IsConfirmed o h = ground (arith, h)

pub IsConfirmed-is_settled : (o : OrderFinding) → IsConfirmed o → order_passes o ≡ true
IsConfirmed-is_settled o (inl e) = rw e refl
IsConfirmed-is_settled o (inr e) = rw e refl

pub is_cleared-IsAttributed : (e : ExecutionFinding) → execution_passes e ≡ true → IsAttributed e
is_cleared-IsAttributed e h = cleared e.correlation e.fee_disposition h
  where
    cleared :
        (c : CorrelationLevel) (fee : FeeDisposition)
        → is_cleared c fee ≡ true
        → (c ≡ uncorrelated) ⊎ ((c ≡ proven) × (fee ≡ quote_fee))
    cleared uncorrelated fee h = inl refl
    cleared proven fee h = inr (refl, is_fee_automatable_lem fee h)
    cleared strong_but_not_proven fee h = cc
    cleared ambiguous fee h = cc

pub IsAttributed-is_cleared : (e : ExecutionFinding) → IsAttributed e → execution_passes e ≡ true
unfolding is_fee_automatable
IsAttributed-is_cleared e (inl c) = rw c refl
IsAttributed-is_cleared e (inr (c, fee)) = rw (c, fee) refl

pub passes-IsSure : (r : ReservationFinding) → reservation_passes r ≡ true → IsSure r
passes-IsSure r h e = cc (rw e at h)

pub IsSure-passes : (r : ReservationFinding) → IsSure r → reservation_passes r ≡ true
IsSure-passes r h = sure r.reservation h
  where
    sure : (x : ReservationDisposition) → x ≢ ambiguous_reservation → not (is_ambiguous x) ≡ true
    sure release h = refl
    sure retain h = refl
    sure ambiguous_reservation h = absurd (h refl)

member-Memᴰ : (c : String) (cs : List String) → member c cs ≡ true → Memᴰ c cs
unfolding member
member-Memᴰ c [] h = cc
member-Memᴰ c (x ∷ cs) h = elim (Bool-cases (str_eq x c)) [
  | inl e ↦ head (sym ((eq_iff x c).0 e))
  | inr e ↦ tail (member-Memᴰ c cs (rw e at h))
]

Memᴰ-member : (c : String) (cs : List String) → Memᴰ c cs → member c cs ≡ true
unfolding member
Memᴰ-member c [] m = elim m [ ]
Memᴰ-member c (x ∷ cs) (head e) = rw (e, eq_refl x) refl
Memᴰ-member c (x ∷ cs) (tail m) = ground (arith, Memᴰ-member c cs m)

is_currency_lem : (q : Option String) (c : String) → is_currency q c ≡ true → q ≡ some c
is_currency_lem none c h = cc
is_currency_lem (some q) c h = ap some (sym ((eq_iff c q).0 h))

bears_on-Uses :
    (action : LivePreTradeAction) (side : Side) (currency : String)
    → bears_on action side currency ≡ true
    → Uses action side currency
unfolding bears_on
bears_on-Uses action sell currency h = (eq_iff currency (base_of action.symbol)).0 h
bears_on-Uses action buy currency h = elim (Bool-cases (member currency action.quote_currencies)) [
  | inl m ↦ inr (member-Memᴰ currency action.quote_currencies m)
  | inr m ↦ inl (is_currency_lem (quote_of action.symbol) currency (ground (arith, h, m)))
]

Uses-bears_on :
    (action : LivePreTradeAction) (side : Side) (currency : String)
    → Uses action side currency
    → bears_on action side currency ≡ true
unfolding bears_on
Uses-bears_on action sell currency e = (eq_iff currency (base_of action.symbol)).1 e
Uses-bears_on action buy currency (inl e) = rw (e, eq_refl currency) refl
Uses-bears_on action buy currency (inr m) =
    ground (arith, Memᴰ-member currency action.quote_currencies m)

pub passes-IsUnaffected :
    (action : LivePreTradeAction) (b : BalanceFinding)
    → balance_passes action b ≡ true
    → IsUnaffected action b
passes-IsUnaffected action b h m uses =
    let bears = Uses-bears_on action action.side b.currency uses in
    absurd (ground (arith, h, m, bears))

pub IsUnaffected-passes :
    (action : LivePreTradeAction) (b : BalanceFinding)
    → IsUnaffected action b
    → balance_passes action b ≡ true
IsUnaffected-passes action b h = elim (Bool-cases (balance_passes action b)) [
  | inl e ↦ e
  | inr e ↦
      absurd
        (h (ground (arith, e)) (bears_on-Uses action action.side b.currency (ground (arith, e))))
]

is_positive_quote_lem :
    (managed : Option Money)
    → is_positive_quote managed ≡ true
    → (a : Money) × (managed ≡ some a) × (pos 0 <ℤ a)
is_positive_quote_lem none h = cc
is_positive_quote_lem (some a) h = (a, refl, ground (arith, h))

pub quote_blockers-nil :
    (side : Side) (managed : Option Money)
    → quote_blockers side managed ≡ []
    → side ≡ buy
    → (a : Money) × (managed ≡ some a) × (pos 0 <ℤ a)
unfolding quote_blockers
quote_blockers-nil sell managed h e = cc
quote_blockers-nil buy managed h e = is_positive_quote_lem managed (ground (arith, h))

pub nil-quote_blockers :
    (side : Side) (managed : Option Money)
    → (side ≡ buy → (a : Money) × (managed ≡ some a) × (pos 0 <ℤ a))
    → quote_blockers side managed ≡ []
unfolding quote_blockers
nil-quote_blockers sell managed h = refl
nil-quote_blockers buy managed h =
    let (a, e, p) = h refl in
    let positive : Money.is_positive a ≡ true = ground (arith, p) in rw (e, positive) refl

pub is_halt_lem : (s : ReconciliationStatus) → s ≢ halted → is_halt s ≡ false
is_halt_lem halted h = absurd (h refl)
is_halt_lem ready h = refl
is_halt_lem reconciliation_required h = refl
