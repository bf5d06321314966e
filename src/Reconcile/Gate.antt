-- ===== src/Reconcile/Gate.antt =====
-- reconcile/preTradeGate.ts: a reconciliation projected onto one intended order. A blocker is a value
-- in place of its text.
pub mod Needs
pub mod Clear
use cryptotradingbot.Common.{
  ◌≡◌, ◌≢◌, refl, sym, ◌∙◌, ap, Bool, true, false, not, ◌&&◌, ◌||◌, ◌⊎◌, inl, inr, Option, none,
  some, List, [], ◌∷◌, ◌++◌, String, str_eq, arith, if◌then◌else◌, Bool-cases,
}
use cryptotradingbot.Common.Int.{ℤ, pos, ◌<ℤ◌, ◌≤ℤ◌, ltb_ℤ}
use cryptotradingbot.Money
use cryptotradingbot.Money.{Money}
use cryptotradingbot.Portfolio.Model.{Side, buy, sell}
use cryptotradingbot.Portfolio.Ids.{base_of, quote_of}
use cryptotradingbot.Portfolio.Equity.{member}
use cryptotradingbot.Reconcile.Model.{
  ReconciliationResult, ReconciliationStatus, halted, ready, reconciliation_required, OrderFinding,
  OrderDisposition, confirmed, partially_confirmed, ExecutionFinding, CorrelationLevel,
  uncorrelated, proven, FeeDisposition, ReservationFinding, ReservationDisposition,
  ambiguous_reservation, BalanceFinding, OperatorFinding,
}
use cryptotradingbot.Reconcile.Classify.{is_fee_automatable}

pub record LivePreTradeAction : Type 0 where
  pub side : Side
  pub symbol : String
  pub quote_currencies : List String
  pub managed_quote_deployable : Option Money

pub data Blocker : Type 0 where
  is_halted : Blocker
  read_failure : String → Blocker
  unconfirmed_order : OrderFinding → Blocker
  unproven_execution : ExecutionFinding → Blocker
  ambiguous_hold : ReservationFinding → Blocker
  operator_finding : OperatorFinding → Blocker
  balance_mismatch : BalanceFinding → Blocker
  no_managed_quote : Blocker

pub record LivePreTradeGateResult : Type 0 where
  pub allowed : Bool
  pub blockers : List Blocker

abbrev pub is_halt : ReconciliationStatus → Bool
is_halt halted = true
is_halt _ = false

abbrev pub is_settled : OrderDisposition → Bool
is_settled confirmed = true
is_settled partially_confirmed = true
is_settled _ = false

-- Out of managed scope, or proven and with a quote fee.
abbrev pub is_cleared : CorrelationLevel → FeeDisposition → Bool
is_cleared uncorrelated fee = true
is_cleared proven fee = is_fee_automatable fee
is_cleared _ fee = false

abbrev pub is_ambiguous : ReservationDisposition → Bool
is_ambiguous ambiguous_reservation = true
is_ambiguous _ = false

-- `b.currency === quote`, where the symbol may have no quote
abbrev pub is_currency : Option String → String → Bool
is_currency none currency = false
is_currency (some q) currency = str_eq currency q

-- Whether a mismatch in the currency bears on the action.
unfoldable pub bears_on : LivePreTradeAction → Side → String → Bool
bears_on action sell currency = str_eq currency (base_of action.symbol)
bears_on action buy currency =
    is_currency (quote_of action.symbol) currency || member currency action.quote_currencies

abbrev pub is_positive_quote : Option Money → Bool
is_positive_quote none = false
is_positive_quote (some a) = Money.is_positive a

-- One loop over findings: those that fail a test become blockers.
module _ {A : Type 0} (passes : A → Bool) (block : A → Blocker) where
  unfoldable pub blocked : List A → List Blocker
  blocked [] = []
  blocked (f ∷ findings) = let rest = blocked findings in if passes f then rest else block f ∷ rest

abbrev pub order_passes : OrderFinding → Bool
order_passes o = is_settled o.disposition

abbrev pub execution_passes : ExecutionFinding → Bool
execution_passes e = is_cleared e.correlation e.fee_disposition

abbrev pub reservation_passes : ReservationFinding → Bool
reservation_passes r = not (is_ambiguous r.reservation)

abbrev pub balance_passes : LivePreTradeAction → BalanceFinding → Bool
balance_passes action b = not (b.mismatch && bears_on action action.side b.currency)

unfoldable pub quote_blockers : Side → Option Money → List Blocker
quote_blockers sell managed = []
quote_blockers buy managed = if is_positive_quote managed then [] else no_managed_quote ∷ []

abbrev pub never : {A : Type 0} → A → Bool
never f = false

unfoldable pub blockers_of : ReconciliationResult → LivePreTradeAction → List Blocker
unfolding blocked quote_blockers
blockers_of result action =
    (if is_halt result.status then is_halted ∷ [] else [])
    ++ (blocked never read_failure result.read_failures
        ++ (blocked order_passes unconfirmed_order result.order_findings
            ++ (blocked execution_passes unproven_execution result.execution_findings
                ++ (blocked reservation_passes ambiguous_hold result.reservation_findings
                    ++ (blocked never operator_finding result.operator_findings
                        ++ (blocked (balance_passes action) balance_mismatch result.balance_findings
                            ++ quote_blockers action.side action.managed_quote_deployable))))))

-- `blockers.length === 0`
abbrev pub is_nil : List Blocker → Bool
is_nil [] = true
is_nil (b ∷ rest) = false

unfoldable pub live_pre_trade_gate :
    ReconciliationResult → LivePreTradeAction → LivePreTradeGateResult
unfolding blockers_of
live_pre_trade_gate result action = record {
  allowed = is_nil (blockers_of result action);
  blockers = blockers_of result action;
}
