-- ===== src/Portfolio/Settle/Kept.antt =====
-- Settling an order in portfolio/Portfolio.ts leaves the ledgers of executions, settlements and
-- attestations alone until it records its own entry.
use cryptotradingbot.Common.{ℕ, ◌≡◌, ◌∙◌, inl, inr, Option, none, String, Option-cases, arith}
use cryptotradingbot.Common.Result.{ok, >>=-eq-ok}
use cryptotradingbot.Money.{Money}
use cryptotradingbot.Portfolio.Model.{Portfolio, Side, buy, sell}
use cryptotradingbot.Portfolio.Reserve.{
  active_reservation, consume_order_reservation, release_quote, release_order_reservation,
}
use cryptotradingbot.Portfolio.Reserve.Steps.{consume-ok, release_order_none, release_order-ok}
use cryptotradingbot.Portfolio.Fill.Frame.{SameLedgers, apply_fill-SameLedgers}
use cryptotradingbot.Portfolio.Settle.Aggregate.{consume_and_release, settle_aggregate}
use cryptotradingbot.Portfolio.Settle.Steps.{settle_sell-ok, settle_buy-ok}

-- The same executions, settlements and attestations on record.
pub record Kept (m n : Portfolio) : Type 0 where
  pub applied_executions : n.applied_executions ≡ m.applied_executions
  pub manual_settlements : n.manual_settlements ≡ m.manual_settlements
  pub live_order_attestations : n.live_order_attestations ≡ m.live_order_attestations

Kept-trans : {m n o : Portfolio} → Kept m n → Kept n o → Kept m o
Kept-trans a b = record {
  applied_executions = b.applied_executions ∙ a.applied_executions;
  manual_settlements = b.manual_settlements ∙ a.manual_settlements;
  live_order_attestations = b.live_order_attestations ∙ a.live_order_attestations;
}

release_quote-Kept :
    (m : Portfolio) (currency : String) (amount : Money) (n : Portfolio)
    → release_quote m currency amount ≡ ok n
    → Kept m n
unfolding release_quote
release_quote-Kept m currency amount n h = ground arith

consume-Kept :
    (m : Portfolio) (id : String) (amount : Money) (n : Portfolio)
    → consume_order_reservation m id amount ≡ ok n
    → Kept m n
consume-Kept m id amount n h =
    let (_, _, _, _, e) = consume-ok m id amount n h in rw e (ground arith)

pub consume_and_release-Kept :
    (m : Portfolio) (id currency : String) (cost : Money) (n : Portfolio)
    → consume_and_release m id currency cost ≡ ok n
    → Kept m n
unfolding consume_and_release
consume_and_release-Kept m id currency cost n h =
    let (c, h1, h2) = >>=-eq-ok (consume_order_reservation m id cost) _ h in
    Kept-trans (consume-Kept m id cost c h1) (release_quote-Kept c currency cost n h2)

pub release_order-Kept : (m : Portfolio) (id : String) → Kept m (release_order_reservation m id)
release_order-Kept m id = elim (Option-cases (active_reservation m id)) [
  | inl e ↦ rw (release_order_none m id e) (ground arith)
  | inr (r, a) ↦ rw (release_order-ok m id r a) (ground arith)
]

fill-Kept : {m n : Portfolio} → SameLedgers m n → Kept m n
fill-Kept s = record {
  applied_executions = s.applied_executions;
  manual_settlements = s.manual_settlements;
  live_order_attestations = s.live_order_attestations;
}

pub settle_aggregate-Kept :
    (m : Portfolio) (id symbol : String) (side : Side) (quantity price fee : Money)
    (now_ms : Option ℕ) (n : Portfolio)
    → settle_aggregate m id symbol side quantity price fee now_ms ≡ ok n
    → Kept m n
settle_aggregate-Kept m id symbol sell quantity price fee now_ms n h = fill-Kept (
    apply_fill-SameLedgers m symbol sell quantity price fee now_ms none n
      (settle_sell-ok m id symbol quantity price fee now_ms n h))
settle_aggregate-Kept m id symbol buy quantity price fee now_ms n h =
    let (r, filled, paid, _, _, h1, h2, e) =
      settle_buy-ok m id symbol quantity price fee now_ms n h in
    let s = apply_fill-SameLedgers m symbol buy quantity price fee now_ms none filled h1 in
    rw e (
      Kept-trans (fill-Kept s) (
        Kept-trans (consume_and_release-Kept filled id r.currency _ paid h2)
          (release_order-Kept paid id)))
