-- ===== src/Portfolio/Settle/Attestation.antt =====
-- portfolio/Portfolio.ts: `settleLiveOrderAttested`, which accounts a live order that an operator
-- attests.
use Prim.Native.String.{◌++◌ as append}
use cryptotradingbot.Common.{
  ℕ, Bool, false, not, ◌&&◌, ◌||◌, Option, none, some, [], ◌∷◌, String, str_eq, if◌then◌else◌,
}
use cryptotradingbot.Common.Int.{ltb_ℤ}
use cryptotradingbot.Common.Dict.{Dict, lookup, insert}
use cryptotradingbot.Common.Result.{
  Result, ok, err, ◌>>=◌, ◌>>◌, throw_if, bad_fee_currency, conflict, missing_identity,
  bad_quantity, bad_price, bad_fee, duplicate_order, bad_authority, exceeds_position,
}
use cryptotradingbot.Money
use cryptotradingbot.Money.{Money}
use cryptotradingbot.Portfolio.Model.{
  Portfolio, Side, FeeCurrency, quote, is_quote, AppliedExecution, ManualSettlement,
  LiveOrderAttestation, ExchangeEvidenceSnapshot, same_side,
}
use cryptotradingbot.Portfolio.Ids.{is_empty, same_external_order_id}
use cryptotradingbot.Portfolio.Settle.Aggregate.{settle_aggregate}

-- The argument of `settleLiveOrderAttested`.
pub record AttestedOrder : Type 0 where
  pub client_order_id : String
  pub symbol : String
  pub side : Side
  pub order_quantity : Money
  pub exchange_order_id : String
  pub exchange_status : String
  pub attested_filled_quantity : Money
  pub attested_average_price : Money
  pub fee : Money
  pub fee_currency : FeeCurrency
  pub evidence_source : String
  pub accounting_authority : String
  pub provenance_proof : Bool
  pub operator_confirmed_by : String
  pub attested_at_ms : ℕ
  pub exchange_read_at_ms : ℕ
  pub exchange_evidence : ExchangeEvidenceSnapshot

unfoldable pub same_attestation : LiveOrderAttestation → AttestedOrder → Bool
same_attestation existing op =
    str_eq existing.exchange_evidence.symbol op.symbol
    && same_side existing.exchange_evidence.side op.side
    && str_eq existing.exchange_order_id op.exchange_order_id
    && Money.equals existing.attested_filled_quantity op.attested_filled_quantity
    && Money.equals existing.attested_average_price op.attested_average_price
    && Money.equals existing.fee op.fee

-- The three loops of the duplicate-accounting guard.
unfoldable pub applied_to_order : String → Dict AppliedExecution → Bool
applied_to_order client_order_id [] = false
applied_to_order client_order_id ((_, a) ∷ rest) =
    str_eq a.order_id client_order_id || applied_to_order client_order_id rest

unfoldable pub settled_manually : Option String → Dict ManualSettlement → Bool
settled_manually order_id [] = false
settled_manually order_id ((_, s) ∷ rest) =
    same_external_order_id s.order_id order_id || settled_manually order_id rest

unfoldable pub attested_elsewhere : String → String → Dict LiveOrderAttestation → Bool
attested_elsewhere client_order_id exchange_order_id [] = false
attested_elsewhere client_order_id exchange_order_id ((other, a) ∷ rest) =
    (not (str_eq other client_order_id)
      && same_external_order_id (some a.exchange_order_id) (some exchange_order_id))
    || attested_elsewhere client_order_id exchange_order_id rest

unfoldable pub check_attested : AttestedOrder → Result (Unit {0})
check_attested op = do
  throw_if (is_empty op.client_order_id) missing_identity
  throw_if (is_empty op.exchange_order_id) missing_identity
  throw_if (is_empty op.symbol) missing_identity
  throw_if (not (Money.is_positive op.attested_filled_quantity)) bad_quantity
  throw_if (ltb_ℤ op.order_quantity op.attested_filled_quantity) exceeds_position
  throw_if (not (Money.is_positive op.attested_average_price)) bad_price
  throw_if (Money.is_negative op.fee) bad_fee
  throw_if (not (Money.is_zero op.fee) && not (is_quote op.fee_currency)) bad_fee_currency
  throw_if op.provenance_proof bad_authority
  throw_if (not (str_eq op.accounting_authority "operator_attestation")) bad_authority

unfoldable pub record_attestation : Portfolio → AttestedOrder → Portfolio
record_attestation m op = record m {
  live_order_attestations =
      insert op.client_order_id
        (record {
          attestation_id = append "op-attest:" op.client_order_id;
          client_order_id = op.client_order_id;
          exchange_order_id = op.exchange_order_id;
          exchange_status = op.exchange_status;
          attested_filled_quantity = op.attested_filled_quantity;
          attested_average_price = op.attested_average_price;
          fee = op.fee;
          fee_currency = (if Money.is_zero op.fee then quote else op.fee_currency);
          evidence_source = op.evidence_source;
          accounting_authority = op.accounting_authority;
          provenance_proof = op.provenance_proof;
          operator_confirmed_by = op.operator_confirmed_by;
          attested_at_ms = op.attested_at_ms;
          exchange_read_at_ms = op.exchange_read_at_ms;
          exchange_evidence = op.exchange_evidence;
        })
        m.live_order_attestations;
}

unfoldable pub settle_live_order_attested : Portfolio → AttestedOrder → Result Portfolio
settle_live_order_attested m op = do
  check_attested op
  elim (lookup op.client_order_id m.live_order_attestations) [
    | some existing ↦ if same_attestation existing op then ok m else err conflict
    | none ↦ do
      throw_if (applied_to_order op.client_order_id m.applied_executions) duplicate_order
      throw_if (settled_manually (some op.exchange_order_id) m.manual_settlements) duplicate_order
      throw_if
          (attested_elsewhere op.client_order_id op.exchange_order_id m.live_order_attestations)
          duplicate_order
      settled ←
          settle_aggregate m op.client_order_id op.symbol op.side op.attested_filled_quantity
            op.attested_average_price op.fee (some op.attested_at_ms)
      ok (record_attestation settled op)
  ]
