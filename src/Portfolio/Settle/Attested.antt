-- ===== src/Portfolio/Settle/Attested.antt =====
-- portfolio/Portfolio.ts: what a settlement by attestation has checked and done.
use cryptotradingbot.Common.{
  ◌≡◌, sym, ◌∙◌, ap, true, false, inl, inr, ◌⊎◌, Option, none, some, String, arith, Bool-cases,
  Option-cases, ◌≢◌, [], ◌∷◌, str_eq, eq_iff,
}
use cryptotradingbot.Common.Dict.{Dict, lookup}
use cryptotradingbot.Common.Result.{ok, throw_if-ok, >>=-eq-ok, ok-injective, duplicate_order}
use cryptotradingbot.Portfolio.Model.{
  Portfolio, LiveOrderAttestation, ManualSettlement, AppliedExecution,
}
use cryptotradingbot.Portfolio.Ids.{same_external_order_id}
use cryptotradingbot.Portfolio.Reserve.Backing.{Backed}
use cryptotradingbot.Portfolio.Settle.Backing.{settle_aggregate-Backed}
use cryptotradingbot.Portfolio.Settle.Aggregate.{settle_aggregate}
use cryptotradingbot.Portfolio.Settle.Attestation.{
  AttestedOrder, check_attested, same_attestation, applied_to_order, settled_manually,
  attested_elsewhere, record_attestation, settle_live_order_attested,
}

pub settle_live_order_attested-ok :
    (m : Portfolio) (op : AttestedOrder) (n : Portfolio)
    → settle_live_order_attested m op ≡ ok n
    → (check_attested op ≡ ok tt)
      × (((a : LiveOrderAttestation) × (lookup op.client_order_id m.live_order_attestations
              ≡ some a)
            × (same_attestation a op ≡ true)
            × (n ≡ m))
          ⊎ ((settled : Portfolio) × (lookup op.client_order_id m.live_order_attestations ≡ none)
              × (applied_to_order op.client_order_id m.applied_executions ≡ false)
              × (settled_manually (some op.exchange_order_id) m.manual_settlements ≡ false)
              × (attested_elsewhere op.client_order_id op.exchange_order_id
                    m.live_order_attestations
                  ≡ false)
              × (settle_aggregate m op.client_order_id op.symbol op.side op.attested_filled_quantity
                    op.attested_average_price op.fee
                    (some op.attested_at_ms)
                  ≡ ok settled)
              × (n ≡ record_attestation settled op)))
unfolding settle_live_order_attested
settle_live_order_attested-ok m op n h =
    let (_, c, h1) = >>=-eq-ok (check_attested op) _ h in
    (
      c,
      elim (Option-cases (lookup op.client_order_id m.live_order_attestations)) [
        | inr (a, e) ↦ inl (a, e, ground (arith, e, h1), ground (arith, e, h1))
        | inl e ↦
            let (x, h2) =
              throw_if-ok (applied_to_order op.client_order_id m.applied_executions) duplicate_order
                _ (rw e at h1) in
            let (y, h3) =
              throw_if-ok (settled_manually (some op.exchange_order_id) m.manual_settlements)
                duplicate_order _ h2 in
            let (z, h4) =
              throw_if-ok
                (attested_elsewhere op.client_order_id op.exchange_order_id
                  m.live_order_attestations)
                duplicate_order _ h3 in
            let (settled, h5, h6) =
              >>=-eq-ok
                (settle_aggregate m op.client_order_id op.symbol op.side op.attested_filled_quantity
                  op.attested_average_price op.fee (some op.attested_at_ms))
                _ h4 in
            inr (settled, e, x, y, z, h5, sym (ok-injective h6))
      ],
    )

record_attestation-Backed :
    (m : Portfolio) (op : AttestedOrder) → Backed m → Backed (record_attestation m op)
unfolding record_attestation
record_attestation-Backed m op b = b

-- Settling an attested live order keeps the reservations backed, whether it is new or seen before.
pub settle_live_order_attested-Backed :
    (m : Portfolio) (op : AttestedOrder) (n : Portfolio)
    → Backed m
    → settle_live_order_attested m op ≡ ok n
    → Backed n
settle_live_order_attested-Backed m op n b h =
    let (_, seen_or_new) = settle_live_order_attested-ok m op n h in
    elim seen_or_new [
      | inl (_, _, _, e) ↦ rw e b
      | inr (settled, _, _, _, _, h1, e) ↦ rw e (
          record_attestation-Backed settled op (
            settle_aggregate-Backed m op.client_order_id op.symbol op.side
              op.attested_filled_quantity op.attested_average_price op.fee (some op.attested_at_ms)
              settled b h1))
    ]

applied_to_order-lookup :
    (id : String) (executions : Dict AppliedExecution) (x : String) (e : AppliedExecution)
    → applied_to_order id executions ≡ false
    → lookup x executions ≡ some e
    → str_eq e.order_id id ≡ false
unfolding applied_to_order lookup
applied_to_order-lookup id [] x e h l = cc
applied_to_order-lookup id ((k, a) ∷ rest) x e h l = elim (Bool-cases (str_eq k x)) [
  | inl y ↦ ground (arith, y, l, h)
  | inr y ↦ applied_to_order-lookup id rest x e (ground (arith, h)) (ground (arith, y, l))
]

settled_manually-lookup :
    (o : Option String) (settlements : Dict ManualSettlement) (i : String) (s : ManualSettlement)
    → settled_manually o settlements ≡ false
    → lookup i settlements ≡ some s
    → same_external_order_id s.order_id o ≡ false
unfolding settled_manually lookup
settled_manually-lookup o [] i s h l = cc
settled_manually-lookup o ((k, t) ∷ rest) i s h l = elim (Bool-cases (str_eq k i)) [
  | inl y ↦ ground (arith, y, l, h)
  | inr y ↦ settled_manually-lookup o rest i s (ground (arith, h)) (ground (arith, y, l))
]

attested_elsewhere-lookup :
    (id order : String) (attestations : Dict LiveOrderAttestation) (j : String)
    (a : LiveOrderAttestation)
    → attested_elsewhere id order attestations ≡ false
    → lookup j attestations ≡ some a
    → str_eq j id ≡ false
    → same_external_order_id (some a.exchange_order_id) (some order) ≡ false
unfolding attested_elsewhere lookup
attested_elsewhere-lookup id order [] j a h l ne = cc
attested_elsewhere-lookup id order ((k, b) ∷ rest) j a h l ne = elim (Bool-cases (str_eq k j)) [
  | inl y ↦
      let other = ap (λ x. str_eq x id) ((eq_iff k j).0 y) ∙ ne in ground (arith, y, l, h, other)
  | inr y ↦
      attested_elsewhere-lookup id order rest j a (ground (arith, h)) (ground (arith, y, l)) ne
]

-- An attestation that changes the portfolio counts an order that no ledger had counted: no applied
-- execution is of that order, no manual settlement and no other attestation names its exchange order.
pub settle_live_order_attested-uncounted :
    (m : Portfolio) (op : AttestedOrder) (n : Portfolio)
    → settle_live_order_attested m op ≡ ok n
    → n ≢ m
    → (lookup op.client_order_id m.live_order_attestations ≡ none)
      × ((x : String) (e : AppliedExecution)
          → lookup x m.applied_executions ≡ some e
          → str_eq e.order_id op.client_order_id ≡ false)
      × ((i : String) (s : ManualSettlement)
          → lookup i m.manual_settlements ≡ some s
          → same_external_order_id s.order_id (some op.exchange_order_id) ≡ false)
      × ((j : String) (a : LiveOrderAttestation)
          → lookup j m.live_order_attestations ≡ some a
          → same_external_order_id (some a.exchange_order_id) (some op.exchange_order_id) ≡ false)
settle_live_order_attested-uncounted m op n h changed =
    let (_, seen_or_new) = settle_live_order_attested-ok m op n h in
    elim seen_or_new [
      | inl (_, _, _, e) ↦ absurd (changed e)
      | inr (settled, absent, x, y, z, _, _) ↦ (
        absent,
        λ k e l. applied_to_order-lookup op.client_order_id m.applied_executions k e x l,
        λ i s l. settled_manually-lookup (some op.exchange_order_id) m.manual_settlements i s y l,
        λ j a l. elim (Bool-cases (str_eq j op.client_order_id)) [
          | inl e ↦ absurd (cc ((eq_iff j op.client_order_id).0 e, l, absent))
          | inr e ↦
              attested_elsewhere-lookup op.client_order_id op.exchange_order_id
                m.live_order_attestations j a z l e
        ],
      )
    ]
