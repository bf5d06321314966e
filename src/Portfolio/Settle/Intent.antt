-- ===== src/Portfolio/Settle/Intent.antt =====
-- portfolio/Portfolio.ts: `settleManualOrder`, which accounts the order of a manual intent.
use cryptotradingbot.Common.{
  ℕ, Bool, false, not, ◌&&◌, ◌||◌, Option, none, some, [], ◌∷◌, String, str_eq, if◌then◌else◌,
}
use cryptotradingbot.Common.Dict.{Dict, lookup, insert}
use cryptotradingbot.Common.Result.{
  Result, ok, err, ◌>>=◌, ◌>>◌, throw_if, conflict, missing_identity, bad_quantity, bad_price,
  bad_fee, duplicate_order,
}
use cryptotradingbot.Money
use cryptotradingbot.Money.{Money}
use cryptotradingbot.Portfolio.Model.{
  Portfolio, Side, ManualSettlement, SettlementMode, same_side, same_mode,
}
use cryptotradingbot.Portfolio.Ids.{is_empty, same_external_order_id}
use cryptotradingbot.Portfolio.Settle.Aggregate.{settle_aggregate}

-- The argument of `settleManualOrder`.
pub record ManualOrder : Type 0 where
  pub intent_id : String
  pub symbol : String
  pub side : Side
  pub quantity : Money
  pub price : Money
  pub fee : Money
  pub order_id : Option String
  pub evidence_source : String
  pub exchanged_validated : Bool
  pub settlement_mode : SettlementMode
  pub provenance_proof : Bool
  pub operator_confirmed_by : Option String
  pub executed_at_ms : Option ℕ

unfoldable pub same_settlement : ManualSettlement → ManualOrder → Bool
same_settlement existing op =
    str_eq existing.symbol op.symbol
    && same_side existing.side op.side
    && Money.equals existing.quantity op.quantity
    && Money.equals existing.price op.price
    && Money.equals existing.fee op.fee
    && same_external_order_id existing.order_id op.order_id
    && same_mode existing.settlement_mode op.settlement_mode

-- Whether an intent other than the given one has settled the exchange order.
unfoldable pub settled_elsewhere : String → Option String → Dict ManualSettlement → Bool
settled_elsewhere intent_id order_id [] = false
settled_elsewhere intent_id order_id ((other, s) ∷ rest) =
    (not (str_eq other intent_id) && same_external_order_id s.order_id order_id)
    || settled_elsewhere intent_id order_id rest

-- `if (op.orderId !== null)`
abbrev pub is_settled_elsewhere : String → Option String → Dict ManualSettlement → Bool
is_settled_elsewhere intent_id none settlements = false
is_settled_elsewhere intent_id (some order_id) settlements =
    settled_elsewhere intent_id (some order_id) settlements

unfoldable pub record_settlement : Portfolio → ManualOrder → ℕ → Portfolio
record_settlement m op now_ms = record m {
  manual_settlements =
      insert op.intent_id
        (record {
          intent_id = op.intent_id;
          order_id = op.order_id;
          symbol = op.symbol;
          side = op.side;
          quantity = op.quantity;
          price = op.price;
          fee = op.fee;
          evidence_source = op.evidence_source;
          exchanged_validated = op.exchanged_validated;
          settlement_mode = op.settlement_mode;
          provenance_proof = op.provenance_proof;
          operator_confirmed_by = op.operator_confirmed_by;
          executed_at_ms = op.executed_at_ms;
          created_at_ms = now_ms;
        })
        m.manual_settlements;
}

-- `settleManualOrder`, at the local time `now_ms` (`Date.now()`).
unfoldable pub settle_manual_order : Portfolio → ManualOrder → ℕ → Result Portfolio
settle_manual_order m op now_ms = do
  throw_if (is_empty op.intent_id) missing_identity
  throw_if (Money.is_negative_or_zero op.quantity) bad_quantity
  throw_if (Money.is_negative op.price) bad_price
  throw_if (Money.is_negative op.fee) bad_fee
  elim (lookup op.intent_id m.manual_settlements) [
    | some existing ↦ if same_settlement existing op then ok m else err conflict
    | none ↦ do
      throw_if (is_settled_elsewhere op.intent_id op.order_id m.manual_settlements) duplicate_order
      settled ←
          settle_aggregate m op.intent_id op.symbol op.side op.quantity op.price op.fee
            op.executed_at_ms
      ok (record_settlement settled op now_ms)
  ]
