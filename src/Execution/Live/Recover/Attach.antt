-- ===== src/Execution/Live/Recover/Attach.antt =====
-- execution/LiveExecutionEngine.ts: what `recoverOrder` may attach, and what `refreshOrder` writes.
use cryptotradingbot.Common.{
  ◌≡◌, ◌⊎◌, inl, inr, refl, sym, subst, ap, ◌∙◌, Bool, true, false, not, Option, none, some, List,
  [], ◌∷◌, String, str_eq, eq_iff, eq_refl, eq_of_some, arith, Bool-cases, if_cases,
}
use cryptotradingbot.Common.Dict.{Dict, lookup, insert, lookup-insert}
use cryptotradingbot.Reconcile.Model.{Order}
use cryptotradingbot.Execution.Recovery.{
  ReattachmentResult, unique_match, zero_match, multiple_match, same_given_id,
  is_provable_reattachment_match, provable, classify_reattachment,
}
use cryptotradingbot.Execution.Live.Model.{Engine, Attempt, Attempt-cases, done, saved}
use cryptotradingbot.Execution.Live.Recover.{
  ReadReplies, RecoveryResult, unique_attached, lacks_id, refresh_order, gather_candidates,
  same_exchange_id, already_owned, attached, left_unresolved, save_or_throw, attach, recover_order,
}

same_given_id_lacking : (a b : Option String) → lacks_id a ≡ true → same_given_id a b ≡ false
unfolding same_given_id lacks_id
same_given_id_lacking none b h = refl
same_given_id_lacking (some a) none h = refl
same_given_id_lacking (some a) (some b) h = rw h refl

-- An order with no exchange id matches nothing where client ids are not unique.
lacking_matches_none :
    (local c : Order)
    → lacks_id local.exchange_order_id ≡ true
    → is_provable_reattachment_match local c false ≡ false
unfolding is_provable_reattachment_match
lacking_matches_none local c h =
    ground (arith, same_given_id_lacking local.exchange_order_id c.exchange_order_id h)

lacking_provable_none :
    (local : Order) (candidates : List Order)
    → lacks_id local.exchange_order_id ≡ true
    → provable local candidates false ≡ []
unfolding provable
lacking_provable_none local [] h = refl
lacking_provable_none local (c ∷ rest) h =
    rw (lacking_matches_none local c h) (lacking_provable_none local rest h)

-- Where the exchange does not guarantee unique client order ids, as NDAX does not, recoverOrder leaves an
-- order that has no exchange id unresolved, and the ledger and all else as it was, whatever the exchange
-- answers.
pub recover_order_no_guess :
    (r : ReadReplies) (order : Order) (s : Engine)
    → lacks_id order.exchange_order_id ≡ true
    → recover_order false r order s ≡ (done (left_unresolved order), s)
unfolding recover_order classify_reattachment attach
recover_order_no_guess r order s h = elim (Attempt-cases (gather_candidates r)) [
  | inl (e, g) ↦ ground (arith, h, g)
  | inr (candidates, g) ↦ ground (arith, h, g, lacking_provable_none order candidates h)
]

-- refreshOrder writes what the exchange answers under the client order id of the answer: where that is not
-- the local order's, as with NDAX's orders, which carry none, the local entry is left as it was.
pub refresh_order_elsewhere :
    (r : ReadReplies) (order live : Order) (s : Engine)
    → lacks_id order.exchange_order_id ≡ false
    → r.order_status_read ≡ done live
    → r.recovery_saved ≡ true
    → str_eq live.client_order_id order.client_order_id ≡ false
    → let (answer, after) = refresh_order r order s in
      (answer ≡ done live)
      × (lookup order.client_order_id after.orders ≡ lookup order.client_order_id s.orders)
      × (lookup live.client_order_id after.orders ≡ some live)
unfolding refresh_order saved
refresh_order_elsewhere r order live s h e w other =
    let a = lookup-insert live.client_order_id order.client_order_id live s.orders in
    let b = lookup-insert live.client_order_id live.client_order_id live s.orders in
    let c = eq_refl live.client_order_id in
    (ground (arith, h, e, w), ground (arith, h, e, w, other, a), ground (arith, h, e, w, b, c))

-- An exchange order that is given is attached to one order of the ledger.
abbrev pub IsOwnedOnce : Dict Order → Type 0
IsOwnedOnce orders =
    (i j : String) (a b : Order)
    → lookup i orders ≡ some a
    → lookup j orders ≡ some b
    → same_given_id a.exchange_order_id b.exchange_order_id ≡ true
    → i ≡ j

-- Every order stands under its client order id.
abbrev pub IsNamed : Dict Order → Type 0
IsNamed orders = (i : String) (a : Order) → lookup i orders ≡ some a → a.client_order_id ≡ i

not_owned :
    (matched order : Order) (orders : Dict Order) (j : String) (b : Order)
    → already_owned matched order orders ≡ false
    → lookup j orders ≡ some b
    → same_exchange_id b.exchange_order_id matched.exchange_order_id ≡ true
    → b.client_order_id ≡ order.client_order_id
unfolding already_owned lookup
not_owned matched order [] j b n l e = cc
not_owned matched order ((k, o) ∷ rest) j b n l e = elim (Bool-cases (str_eq k j)) [
  | inl h ↦
      let same : o ≡ b = eq_of_some (ground (arith, h, l)) in
      subst (λ (x : Order). x.client_order_id ≡ order.client_order_id) same
        (ground (
          arith,
          n,
          eq_iff o.client_order_id order.client_order_id,
          subst
              (λ (x : Order). same_exchange_id x.exchange_order_id matched.exchange_order_id ≡ true)
              (sym same) e,
        ))
  | inr h ↦ not_owned matched order rest j b (ground (arith, n)) (ground (arith, h, l)) e
]

same_given-exchange :
    (a b : Option String)
    → same_given_id a b ≡ true
    → (same_exchange_id a b ≡ true) × (same_exchange_id b a ≡ true)
unfolding same_given_id same_exchange_id
same_given-exchange none b h = cc
same_given-exchange (some a) none h = cc
same_given-exchange (some a) (some b) h = ground (arith, h, eq_iff a b, eq_iff b a)

module _ (matched order : Order) (orders : Dict Order) (named : IsNamed orders)
    (unowned : already_owned matched order orders ≡ false) where
  abbrev entries : Dict Order
  entries = insert order.client_order_id (attached matched order) orders

  -- An entry after the write: the order attached, or one from before.
  entry_cases :
      (i : String) (a : Order)
      → lookup i entries ≡ some a
      → ((i ≡ order.client_order_id) × (a ≡ attached matched order)) ⊎ (lookup i orders ≡ some a)
  entry_cases i a p =
      let q = sym (lookup-insert order.client_order_id i (attached matched order) orders) ∙ p in
      elim (Bool-cases (str_eq order.client_order_id i)) [
        | inl e ↦ inl (sym ((eq_iff order.client_order_id i).0 e), sym (eq_of_some (rw e at q)))
        | inr e ↦ inr (rw e at q)
      ]

  -- No other order has the exchange order's id.
  only_owner :
      (j : String) (b : Order)
      → lookup j orders ≡ some b
      → same_exchange_id b.exchange_order_id matched.exchange_order_id ≡ true
      → j ≡ order.client_order_id
  only_owner j b q e = sym (named j b q) ∙ not_owned matched order orders j b unowned q e

  attached-IsOwnedOnce :
      IsOwnedOnce orders
      → IsOwnedOnce (insert order.client_order_id (attached matched order) orders)
  attached-IsOwnedOnce once = λ i j a b p q e. elim (entry_cases i a p) [
    | inl (x, y) ↦ elim (entry_cases j b q) [
      | inl (z, w) ↦ x ∙ sym z
      | inr l ↦
          let f =
            subst (λ (o : Order). same_given_id o.exchange_order_id b.exchange_order_id ≡ true) y
              e in
          x ∙ sym (only_owner j b l (same_given-exchange _ _ f).1)
    ]
    | inr k ↦ elim (entry_cases j b q) [
      | inl (z, w) ↦
          let f =
            subst (λ (o : Order). same_given_id a.exchange_order_id o.exchange_order_id ≡ true) w
              e in
          only_owner i a k (same_given-exchange _ _ f).0 ∙ sym z
      | inr l ↦ once i j a b k l e
    ]
  ]

  attached-IsNamed : IsNamed (insert order.client_order_id (attached matched order) orders)
  attached-IsNamed = λ i a p. elim (entry_cases i a p) [
    | inl (x, y) ↦ ap (λ (o : Order). o.client_order_id) y ∙ sym x
    | inr k ↦ named i a k
  ]

-- The ledger is well kept: every order under its id, every exchange order of one order.
pub record IsKeptLedger (orders : Dict Order) : Type 0 where
  pub named : IsNamed orders
  pub once : IsOwnedOnce orders

saved-IsKeptLedger :
    (is_saved : Bool) (matched order : Order) (s : Engine)
    → already_owned matched order s.orders ≡ false
    → IsKeptLedger s.orders
    → IsKeptLedger
        (save_or_throw {A = RecoveryResult} is_saved
          (attached matched order)
          (record { order = attached matched order; outcome = unique_attached })
          s).1.orders
unfolding saved
saved-IsKeptLedger false matched order s n v = v
saved-IsKeptLedger true matched order s n v = record {
  named = attached-IsNamed matched order s.orders v.named n;
  once = attached-IsOwnedOnce matched order s.orders v.named n v.once;
}

attach-IsKeptLedger :
    (r : ReadReplies) (order : Order) (result : ReattachmentResult) (s : Engine)
    → IsKeptLedger s.orders
    → IsKeptLedger (attach r order result s).1.orders
unfolding attach saved
attach-IsKeptLedger r order zero_match s v = v
attach-IsKeptLedger r order multiple_match s v = v
attach-IsKeptLedger r order (unique_match matched) s v =
    let P : Attempt RecoveryResult × Engine → Type 0 = λ x. IsKeptLedger x.1.orders in
    if_cases P (not r.orders_readable) _ _ (λ _. v)
      (λ _.
        if_cases P (already_owned matched order s.orders) _ _ (λ _. v)
          (λ n. saved-IsKeptLedger r.recovery_saved matched order s n v))

-- recoverOrder on an order with no exchange id keeps the ledger: every order under its client order id, and
-- no exchange order id of two orders of the ledger, whatever the exchange answers.
pub recover_order-IsKeptLedger :
    (unique : Bool) (r : ReadReplies) (order : Order) (s : Engine)
    → lacks_id order.exchange_order_id ≡ true
    → IsKeptLedger s.orders
    → IsKeptLedger (recover_order unique r order s).1.orders
unfolding recover_order
recover_order-IsKeptLedger unique r order s h v =
    let P : Attempt RecoveryResult × Engine → Type 0 = λ x. IsKeptLedger x.1.orders in
    elim (Attempt-cases (gather_candidates r)) [
      | inl (e, g) ↦ rw (h, g, recover_order) v
      | inr (candidates, g) ↦
          rw (h, g, recover_order)
            (attach-IsKeptLedger r order (classify_reattachment order candidates unique) s v)
    ]
