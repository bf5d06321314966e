-- ===== src/Reconcile/Model.antt =====
-- reconcile/reconciliationTypes.ts, and the order and trade that reconciliation reads (order.ts,
-- types.ts).
use cryptotradingbot.Common.{ℕ, Bool, Option, List, String}
use cryptotradingbot.Money.{Money}
use cryptotradingbot.Portfolio.Model.{Side, FeeCurrency, Fill}

pub data OrderStatus : Type 0 where
  created submitted open_order partially_filled filled : OrderStatus
  canceled order_rejected expired unknown_status abandoned : OrderStatus

pub data OrderType : Type 0 where
  market_order limit_order : OrderType

-- Order, less the audit of an operator's resolution.
pub record Order : Type 0 where
  pub client_order_id : String
  pub exchange_order_id : Option String
  pub symbol : String
  pub side : Side
  pub order_type : OrderType
  pub order_status : OrderStatus
  pub quantity : Money
  pub filled_quantity : Money
  pub average_price : Option Money
  pub price : Option Money
  pub fills : List Fill
  pub fee : Money
  pub fee_currency : FeeCurrency
  pub reason : String
  pub created_at_ms : Option ℕ
  pub updated_at_ms : Option ℕ

pub record AccountTrade : Type 0 where
  pub execution_id : Option String
  pub trade_id : Option String
  pub order_id : Option String
  pub trade_client_order_id : Option String
  pub trade_symbol : Option String
  pub instrument_id : Option String
  pub account_id : Option String
  pub sub_account_id : Option String
  pub side : Side
  pub quantity : Money
  pub remaining_quantity : Money
  pub price : Money
  pub value : Money
  pub trade_time_ms : Option ℕ
  pub fee : Money
  pub fee_product_id : Option String
  pub order_originator : Option String

pub data CorrelationLevel : Type 0 where
  proven strong_but_not_proven ambiguous uncorrelated : CorrelationLevel

pub data Completeness : Type 0 where
  complete incomplete unknown_completeness : Completeness

pub data FeeDisposition : Type 0 where
  quote_fee base_fee unknown_fee malformed_fee : FeeDisposition

pub data OrderDisposition : Type 0 where
  confirmed partially_confirmed ambiguous_order missing corrupt operator_required : OrderDisposition

pub data ReservationDisposition : Type 0 where
  release retain ambiguous_reservation : ReservationDisposition

pub data ReconciliationStatus : Type 0 where
  ready reconciliation_required halted : ReconciliationStatus

pub record ExecutionFinding : Type 0 where
  pub execution_id : Option String
  pub order_id : Option String
  pub finding_symbol : Option String
  pub side : Side
  pub quantity : Money
  pub price : Money
  pub fee : Money
  pub fee_product_id : Option String
  pub fee_disposition : FeeDisposition
  pub correlation : CorrelationLevel
  pub matched_client_order_id : Option String
  pub completeness : Completeness
  pub reason : String

pub record OrderFinding : Type 0 where
  pub client_order_id : String
  pub exchange_order_id : Option String
  pub local_status : String
  pub exchange_status : Option String
  pub disposition : OrderDisposition
  pub executed_quantity : Money
  pub proven_executed_quantity : Money
  pub completeness : Completeness
  pub reason : String

pub record ReservationFinding : Type 0 where
  pub order_id : String
  pub reservation : ReservationDisposition
  pub reason : String

-- BalanceFinding, less the text of its reason.
pub record BalanceFinding : Type 0 where
  pub currency : String
  pub expected : Option Money
  pub observed : Option Money
  pub mismatch : Bool

pub data OperatorFindingKind : Type 0 where
  ambiguous_order_kind missing_execution_id incomplete_history fee_currency_kind :
      OperatorFindingKind
  balance_discrepancy contradictory_evidence manual_evidence_conflict : OperatorFindingKind

pub record OperatorFinding : Type 0 where
  pub kind : OperatorFindingKind
  pub detail : String

-- ReconciliationResult, as far as the pre-trade gate reads it.
pub record ReconciliationResult : Type 0 where
  pub status : ReconciliationStatus
  pub reasons : List String
  pub read_failures : List String
  pub order_findings : List OrderFinding
  pub execution_findings : List ExecutionFinding
  pub reservation_findings : List ReservationFinding
  pub balance_findings : List BalanceFinding
  pub operator_findings : List OperatorFinding
