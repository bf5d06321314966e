-- ===== src/Portfolio/Model.antt =====
-- portfolio/types.ts, and the types of order.ts that it names: the state of a portfolio.
use cryptotradingbot.Common.{ℕ, Bool, Option, List, String}
use cryptotradingbot.Common.Dict.{Dict}
use cryptotradingbot.Money.{Money}

-- OrderSide
pub data Side : Type 0 where
  buy sell : Side

pub data FeeCurrency : Type 0 where
  base quote unknown : FeeCurrency

pub data PositionSource : Type 0 where
  bot external_authorized : PositionSource

pub record SourceQuantities : Type 0 where
  pub bot_quantity : Money
  pub external_quantity : Money

pub data ReservationStatus : Type 0 where
  active released : ReservationStatus

pub record OrderReservation : Type 0 where
  pub order_id : String
  pub currency : String
  pub amount : Money
  pub remaining : Money
  pub status : ReservationStatus

pub record AppliedExecution : Type 0 where
  pub order_id : String
  pub symbol : String
  pub side : Side
  pub quantity : Money
  pub price : Money
  pub fee : Money

pub data SettlementMode : Type 0 where
  exchange_validated operator_attested : SettlementMode

pub record ManualSettlement : Type 0 where
  pub intent_id : String
  pub order_id : Option String
  pub symbol : String
  pub side : Side
  pub quantity : Money
  pub price : Money
  pub fee : Money
  pub evidence_source : String
  pub exchanged_validated : Bool
  pub settlement_mode : SettlementMode
  pub provenance_proof : Bool
  pub operator_confirmed_by : Option String
  pub executed_at_ms : Option ℕ
  pub created_at_ms : ℕ

pub record AccountTradeEvidence : Type 0 where
  pub execution_id : Option String
  pub trade_id : Option String
  pub order_id : Option String
  pub symbol : Option String
  pub side : Side
  pub quantity : Money
  pub price : Money
  pub fee : Money
  pub fee_product_id : Option String
  pub trade_time_ms : Option ℕ

pub record BalanceEvidence : Type 0 where
  pub currency : String
  pub total : Money
  pub available : Money
  pub held : Money

pub data EvidenceSource : Type 0 where
  status history : EvidenceSource

pub record ExchangeEvidenceSnapshot : Type 0 where
  pub order_id : String
  pub symbol : String
  pub side : Side
  pub order_type : String
  pub order_status : String
  pub quantity : Money
  pub filled_quantity : Money
  pub average_price : Option Money
  pub limit_price : Option Money
  pub fee : Money
  pub fee_currency : FeeCurrency
  pub reason : String
  pub created_at_ms : Option ℕ
  pub updated_at_ms : Option ℕ
  pub order_evidence_source : EvidenceSource
  pub observed_account_trades : List AccountTradeEvidence
  pub observed_balances : List BalanceEvidence
  pub read_at_ms : ℕ

pub record LiveOrderAttestation : Type 0 where
  pub attestation_id : String
  pub client_order_id : String
  pub exchange_order_id : String
  pub exchange_status : String
  pub attested_filled_quantity : Money
  pub attested_average_price : Money
  pub fee : Money
  pub fee_currency : FeeCurrency
  pub evidence_source : String
  pub accounting_authority : String
  pub provenance_proof : Bool
  pub operator_confirmed_by : String
  pub attested_at_ms : ℕ
  pub exchange_read_at_ms : ℕ
  pub exchange_evidence : ExchangeEvidenceSnapshot

-- PaperPosition. A position persisted before the breakdown existed has no `source_quantities`.
pub record Position : Type 0 where
  pub symbol : String
  pub quantity : Money
  pub average_entry_price : Money
  pub cost_basis : Money
  pub realized_pnl : Money
  pub fees_paid : Money
  pub entry_anchor_price : Option Money
  pub source : PositionSource
  pub source_quantities : Option SourceQuantities

-- PortfolioModel. A day key is the number of the UTC day since the epoch, which its text
-- `YYYY-MM-DD` stands for.
pub record Portfolio : Type 0 where
  pub cash : Dict Money
  pub positions : Dict Position
  pub peak_equity : Money
  pub realized_pnl : Money
  pub daily_realized_pnl : Money
  pub daily_realized_day_key : Option ℕ
  pub total_fees : Money
  pub external_snapshot : Dict Money
  pub authorized_external : List String
  pub reserved : Dict Money
  pub order_reservations : Dict OrderReservation
  pub applied_executions : Dict AppliedExecution
  pub manual_settlements : Dict ManualSettlement
  pub live_order_attestations : Dict LiveOrderAttestation

-- order.ts: Fill, less the raw fee product, which the portfolio does not read.
pub record Fill : Type 0 where
  pub price : Money
  pub quantity : Money
  pub fee : Money
  pub fee_currency : FeeCurrency
  pub timestamp_ms : Option ℕ
  pub execution_id : Option String

-- types.ts: Balance
pub record Balance : Type 0 where
  pub currency : String
  pub total : Money
  pub available : Money
  pub held : Money

abbrev pub same_side : Side → Side → Bool
same_side buy buy = Bool.true
same_side sell sell = Bool.true
same_side _ _ = Bool.false

abbrev pub same_mode : SettlementMode → SettlementMode → Bool
same_mode exchange_validated exchange_validated = Bool.true
same_mode operator_attested operator_attested = Bool.true
same_mode _ _ = Bool.false

abbrev pub is_active : ReservationStatus → Bool
is_active active = Bool.true
is_active released = Bool.false

abbrev pub is_quote : FeeCurrency → Bool
is_quote quote = Bool.true
is_quote _ = Bool.false
