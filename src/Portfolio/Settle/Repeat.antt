-- ===== src/Portfolio/Settle/Repeat.antt =====
-- portfolio/Portfolio.ts: a settlement given again, and one that the other ledger has counted.
use cryptotradingbot.Common.{ℕ, ◌≡◌, refl, true, inl, inr, some, arith, eq_refl}
use cryptotradingbot.Common.Int.{eqb_ℤ_refl}
use cryptotradingbot.Common.Dict.{lookup, lookup-insert_self}
use cryptotradingbot.Common.Result.{
  ok, throw_if-ok, missing_identity, bad_quantity, bad_price, bad_fee,
}
use cryptotradingbot.Money
use cryptotradingbot.Money.{Money}
use cryptotradingbot.Portfolio.Model.{
  Portfolio, ManualSettlement, Side, buy, sell, same_side, same_mode, SettlementMode,
  exchange_validated, operator_attested,
}
use cryptotradingbot.Portfolio.Ids.{same_external_order_id_refl, is_empty}
use cryptotradingbot.Portfolio.Reserve.Backing.{Backed}
use cryptotradingbot.Portfolio.Settle.Backing.{settle_aggregate-Backed}
use cryptotradingbot.Portfolio.Settle.Manual.{settle_manual_order-ok}
use cryptotradingbot.Portfolio.Settle.Intent.{
  ManualOrder, settle_manual_order, record_settlement, same_settlement,
}

record_settlement-Backed :
    (m : Portfolio) (op : ManualOrder) (now_ms : ℕ)
    → Backed m
    → Backed (record_settlement m op now_ms)
unfolding record_settlement
record_settlement-Backed m op now_ms b = b

-- Settling a manual intent keeps the reservations backed, whether it is new or seen before.
pub settle_manual_order-Backed :
    (m : Portfolio) (op : ManualOrder) (now_ms : ℕ) (n : Portfolio)
    → Backed m
    → settle_manual_order m op now_ms ≡ ok n
    → Backed n
settle_manual_order-Backed m op now_ms n b h = elim (settle_manual_order-ok m op now_ms n h) [
  | inl (_, _, _, e) ↦ rw e b
  | inr (settled, _, _, h1, e) ↦ rw e (
      record_settlement-Backed settled op now_ms (
        settle_aggregate-Backed m op.intent_id op.symbol op.side op.quantity op.price op.fee
          op.executed_at_ms settled b h1))
]

side_refl : (s : Side) → same_side s s ≡ true
side_refl buy = refl
side_refl sell = refl

mode_refl : (s : SettlementMode) → same_mode s s ≡ true
mode_refl exchange_validated = refl
mode_refl operator_attested = refl

-- The settlement on record for the intent agrees with the order.
recorded_alike :
    (m : Portfolio) (op : ManualOrder) (now_ms : ℕ)
    → (s : ManualSettlement) × (lookup op.intent_id
          (record_settlement m op now_ms).manual_settlements
        ≡ some s)
      × (same_settlement s op ≡ true)
unfolding record_settlement same_settlement
recorded_alike m op now_ms = (
  _,
  lookup-insert_self op.intent_id _ m.manual_settlements,
  rw
      (
        eq_refl op.symbol,
        side_refl op.side,
        eqb_ℤ_refl op.quantity,
        eqb_ℤ_refl op.price,
        eqb_ℤ_refl op.fee,
        same_external_order_id_refl op.order_id,
        mode_refl op.settlement_mode,
      )
      refl,
)

kept_alike :
    (m : Portfolio) (op : ManualOrder) (now_ms : ℕ) (n : Portfolio)
    → settle_manual_order m op now_ms ≡ ok n
    → (s : ManualSettlement) × (lookup op.intent_id n.manual_settlements ≡ some s)
      × (same_settlement s op ≡ true)
kept_alike m op now_ms n h = elim (settle_manual_order-ok m op now_ms n h) [
  | inl (s, l, same, e) ↦ (s, rw e l, same)
  | inr (settled, _, _, _, e) ↦ rw e (recorded_alike settled op now_ms)
]

-- A manual order that was settled and is settled again, at any later time, is accepted and changes
-- nothing.
pub settle_manual_order_repeat :
    (m : Portfolio) (op : ManualOrder) (now_ms later_ms : ℕ) (n : Portfolio)
    → settle_manual_order m op now_ms ≡ ok n
    → settle_manual_order n op later_ms ≡ ok n
unfolding settle_manual_order
settle_manual_order_repeat m op now_ms later_ms n h =
    let (s, l, same) = kept_alike m op now_ms n h in
    let (a, h2) = throw_if-ok (is_empty op.intent_id) missing_identity _ h in
    let (b, h3) = throw_if-ok (Money.is_negative_or_zero op.quantity) bad_quantity _ h2 in
    let (c, h4) = throw_if-ok (Money.is_negative op.price) bad_price _ h3 in
    let (d, h5) = throw_if-ok (Money.is_negative op.fee) bad_fee _ h4 in
    rw (a, b, c, d) (ground (arith, l, same))
