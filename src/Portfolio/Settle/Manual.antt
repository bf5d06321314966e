-- ===== src/Portfolio/Settle/Manual.antt =====
-- portfolio/Portfolio.ts: a manual intent is settled once, and no two intents settle one exchange
-- order.
use cryptotradingbot.Common.{
  ℕ, true, false, ◌≡◌, refl, ap, sym, subst, ◌∙◌, ◌⊎◌, inl, inr, Option, none, some, String,
  Option-cases, Bool-cases, arith, eq_of_some,
}
use cryptotradingbot.Common.Dict.{lookup, insert}
use cryptotradingbot.Common.Result.{
  ok, >>=-eq-ok, throw_if-ok, ok-injective, missing_identity, bad_quantity, bad_price, bad_fee,
  duplicate_order,
}
use cryptotradingbot.Money
use cryptotradingbot.Money.{Money}
use cryptotradingbot.Portfolio.Model.{Portfolio, ManualSettlement}
use cryptotradingbot.Portfolio.Ids.{is_empty}
use cryptotradingbot.Portfolio.Settle.Aggregate.{settle_aggregate}
use cryptotradingbot.Portfolio.Settle.Intent.{
  ManualOrder, same_settlement, is_settled_elsewhere, record_settlement, settle_manual_order,
}
use cryptotradingbot.Common.{◌≢◌, [], ◌∷◌, str_eq, eq_iff}
use cryptotradingbot.Common.Dict.{Dict, lookup-insert}
use cryptotradingbot.Portfolio.Ids.{same_external_order_id, same_external_order_id_sym}
use cryptotradingbot.Portfolio.Settle.Kept.{settle_aggregate-Kept}
use cryptotradingbot.Portfolio.Settle.Intent.{settled_elsewhere}

-- What a settlement that succeeds has checked and done.
pub settle_manual_order-ok :
    (m : Portfolio) (op : ManualOrder) (now_ms : ℕ) (n : Portfolio)
    → settle_manual_order m op now_ms ≡ ok n
    → ((s : ManualSettlement) × (lookup op.intent_id m.manual_settlements ≡ some s)
        × (same_settlement s op ≡ true)
        × (n ≡ m))
      ⊎ ((settled : Portfolio) × (lookup op.intent_id m.manual_settlements ≡ none)
          × (is_settled_elsewhere op.intent_id op.order_id m.manual_settlements ≡ false)
          × (settle_aggregate m op.intent_id op.symbol op.side op.quantity op.price op.fee
                op.executed_at_ms
              ≡ ok settled)
          × (n ≡ record_settlement settled op now_ms))
unfolding settle_manual_order
settle_manual_order-ok m op now_ms n h =
    let (_, h1) = throw_if-ok (is_empty op.intent_id) missing_identity _ h in
    let (_, h2) = throw_if-ok (Money.is_negative_or_zero op.quantity) bad_quantity _ h1 in
    let (_, h3) = throw_if-ok (Money.is_negative op.price) bad_price _ h2 in
    let (_, h4) = throw_if-ok (Money.is_negative op.fee) bad_fee _ h3 in
    elim (Option-cases (lookup op.intent_id m.manual_settlements)) [
      | inl e ↦
          let (h5, h6) =
            throw_if-ok (is_settled_elsewhere op.intent_id op.order_id m.manual_settlements)
              duplicate_order _ (rw e at h4) in
          let (settled, h7, h8) =
            >>=-eq-ok
              (settle_aggregate m op.intent_id op.symbol op.side op.quantity op.price op.fee
                op.executed_at_ms)
              _ h6 in
          inr (settled, e, h5, h7, sym (ok-injective h8))
      | inr (s, e) ↦ inl (s, e, ground (arith, e, h4), ground (arith, e, h4))
    ]

-- The entry that a settlement leaves.
abbrev settlement_of : ManualOrder → ℕ → ManualSettlement
settlement_of op now_ms = record {
  intent_id = op.intent_id;
  order_id = op.order_id;
  symbol = op.symbol;
  side = op.side;
  quantity = op.quantity;
  price = op.price;
  fee = op.fee;
  evidence_source = op.evidence_source;
  exchanged_validated = op.exchanged_validated;
  settlement_mode = op.settlement_mode;
  provenance_proof = op.provenance_proof;
  operator_confirmed_by = op.operator_confirmed_by;
  executed_at_ms = op.executed_at_ms;
  created_at_ms = now_ms;
}

recorded :
    (m : Portfolio) (op : ManualOrder) (now_ms : ℕ) (n settled : Portfolio)
    → settle_aggregate m op.intent_id op.symbol op.side op.quantity op.price op.fee
        op.executed_at_ms
      ≡ ok settled
    → n ≡ record_settlement settled op now_ms
    → n.manual_settlements ≡ insert op.intent_id (settlement_of op now_ms) m.manual_settlements
unfolding record_settlement
recorded m op now_ms n settled h e =
    let k =
      settle_aggregate-Kept m op.intent_id op.symbol op.side op.quantity op.price op.fee
        op.executed_at_ms settled h in
    ap (λ (x : Portfolio). x.manual_settlements) e
    ∙ ap (insert op.intent_id (settlement_of op now_ms)) k.manual_settlements

-- No two intents have settled the same exchange order.
abbrev pub OnceEach : Dict ManualSettlement → Type 0
OnceEach settlements =
    (i j : String) (s t : ManualSettlement)
    → lookup i settlements ≡ some s
    → lookup j settlements ≡ some t
    → str_eq i j ≡ false
    → s.order_id ≢ none
    → same_external_order_id s.order_id t.order_id ≡ false

settled_elsewhere-lookup :
    (id : String) (o : Option String) (settlements : Dict ManualSettlement) (j : String)
    (s : ManualSettlement)
    → settled_elsewhere id o settlements ≡ false
    → lookup j settlements ≡ some s
    → str_eq j id ≡ false
    → same_external_order_id s.order_id o ≡ false
unfolding settled_elsewhere lookup
settled_elsewhere-lookup id o [] j s h l ne = cc
settled_elsewhere-lookup id o ((k, t) ∷ rest) j s h l ne = elim (Bool-cases (str_eq k j)) [
  | inl e ↦
      let other = ap (λ x. str_eq x id) ((eq_iff k j).0 e) ∙ ne in ground (arith, e, l, h, other)
  | inr e ↦ settled_elsewhere-lookup id o rest j s (ground (arith, h)) (ground (arith, e, l)) ne
]

-- A settlement of another intent does not share the exchange order.
other_order :
    (id : String) (o : Option String) (settlements : Dict ManualSettlement) (j : String)
    (s : ManualSettlement)
    → is_settled_elsewhere id o settlements ≡ false
    → lookup j settlements ≡ some s
    → str_eq j id ≡ false
    → (s.order_id ≢ none) ⊎ (o ≢ none)
    → same_external_order_id s.order_id o ≡ false
unfolding same_external_order_id
other_order id (some x) settlements j s h l ne given =
    settled_elsewhere-lookup id (some x) settlements j s h l ne
other_order id none settlements j s h l ne (inl given) = ground arith
other_order id none settlements j s h l ne (inr given) = absurd (given refl)

str_eq_sym : (a b : String) → str_eq a b ≡ str_eq b a
str_eq_sym a b = ground (arith, eq_iff a b, eq_iff b a)

insert-OnceEach :
    (id : String) (new : ManualSettlement) (settlements : Dict ManualSettlement)
    → OnceEach settlements
    → is_settled_elsewhere id new.order_id settlements ≡ false
    → OnceEach (insert id new settlements)
insert-OnceEach id new settlements once h i j s t li lj ne given =
    let li' = sym (lookup-insert id i new settlements) ∙ li in
    let lj' = sym (lookup-insert id j new settlements) ∙ lj in
    elim (Bool-cases (str_eq id i)) [
      | inl ei ↦ elim (Bool-cases (str_eq id j)) [
        | inl ej ↦ absurd (cc (ne, (eq_iff i j).1 (sym ((eq_iff id i).0 ei) ∙ (eq_iff id j).0 ej)))
        | inr ej ↦
            let new_s = eq_of_some (rw ei at li') in
            subst (λ (x : ManualSettlement). same_external_order_id x.order_id t.order_id ≡ false)
              new_s
              (same_external_order_id_sym new.order_id t.order_id
                ∙ other_order id new.order_id settlements j t h (rw ej at lj')
                    (str_eq_sym j id ∙ ej)
                    (inr (λ e. given (sym (ap (λ (x : ManualSettlement). x.order_id) new_s) ∙ e))))
      ]
      | inr ei ↦ elim (Bool-cases (str_eq id j)) [
        | inl ej ↦
            let new_t = eq_of_some (rw ej at lj') in
            subst (λ (x : ManualSettlement). same_external_order_id s.order_id x.order_id ≡ false)
              new_t
              (other_order id new.order_id settlements i s h (rw ei at li') (str_eq_sym i id ∙ ei)
                (inl given))
        | inr ej ↦ once i j s t (rw ei at li') (rw ej at lj') ne given
      ]
    ]

-- `settleManualOrder` never lets two intents settle one exchange order.
pub settle_manual_order-OnceEach :
    (m : Portfolio) (op : ManualOrder) (now_ms : ℕ) (n : Portfolio)
    → OnceEach m.manual_settlements
    → settle_manual_order m op now_ms ≡ ok n
    → OnceEach n.manual_settlements
settle_manual_order-OnceEach m op now_ms n once h = elim (settle_manual_order-ok m op now_ms n h) [
  | inl (_, _, _, e) ↦ rw e once
  | inr (settled, _, free, h1, e) ↦
      rw (recorded m op now_ms n settled h1 e)
        (insert-OnceEach op.intent_id (settlement_of op now_ms) m.manual_settlements once free)
]
