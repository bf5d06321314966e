-- ===== src/Execution/Live/Submit/InFlight.antt =====
-- execution/LiveExecutionEngine.ts: at most one live order is unresolved, over any run of submissions
-- and of the writes by which the rest of the bot brings the ledger up to date.
use cryptotradingbot.Common.{
  ◌≡◌, inl, inr, sym, subst, ap, ◌∙◌, true, false, not, none, some, [], ◌∷◌, String, str_eq, eq_iff,
  arith, Bool-cases, eq_of_some,
}
use cryptotradingbot.Common.Dict.{Dict, lookup, insert, lookup-insert}
use cryptotradingbot.Reconcile.Model.{Order, created}
use cryptotradingbot.Risk.Doubles.{Doubles}
use cryptotradingbot.Execution.Live.Model.{
  NewOrder, LiveConfig, Replies, Engine, done, throw_if-done, ledger_corrupt, unresolved_exists,
  build_recorded, saved,
}
use cryptotradingbot.Execution.Live.Submit.{
  blocks, has_unresolved, check_submission, sending, submit,
}
use cryptotradingbot.Execution.Live.Submit.Shape.{Ending-IsEnded, ready-IsQuiet, submit_cases}

-- What happens to the ledger: submissions, whatever the outside answers, and writes of an order that
-- the ledger has, which do not make an order unresolved that was resolved.
pub data Step {F : Type 0} (d : Doubles F) (s t : Engine) : Type 0 where
  submits :
      (cfg : LiveConfig F) (r : Replies F) (order : NewOrder)
      → t ≡ (submit d cfg r order s).1
      → Step d s t
  updates :
      (o old : Order)
      → lookup o.client_order_id s.orders ≡ some old
      → (blocks o ≡ true → blocks old ≡ true)
      → t ≡ saved o s
      → Step d s t

pub data Reach {F : Type 0} (d : Doubles F) (s : Engine) : Engine → Type 0 where
  here : Reach d s s
  next : {t u : Engine} → Reach d s t → Step d t u → Reach d s u

-- Two unresolved live orders are one.
abbrev pub IsSingle : Dict Order → Type 0
IsSingle orders =
    (i j : String) (a b : Order)
    → lookup i orders ≡ some a
    → lookup j orders ≡ some b
    → blocks a ≡ true
    → blocks b ≡ true
    → i ≡ j

none_blocks :
    (orders : Dict Order) (i : String) (a : Order)
    → has_unresolved orders ≡ false
    → lookup i orders ≡ some a
    → blocks a ≡ false
unfolding has_unresolved lookup
none_blocks [] i a h e = cc
none_blocks ((k, o) ∷ rest) i a h e = ground (arith, h, e, none_blocks rest i a)

-- Once only one id can be unresolved, at most one order is.
IsSingle-at :
    (orders : Dict Order) (id : String)
    → ((i : String) (a : Order) → lookup i orders ≡ some a → blocks a ≡ true → i ≡ id)
    → IsSingle orders
IsSingle-at orders id only = λ i j a b p q u v. only i a p u ∙ sym (only j b q v)

-- An order that is unresolved after a write was so before it.
blocked_before :
    (orders : Dict Order) (o old : Order)
    → lookup o.client_order_id orders ≡ some old
    → (blocks o ≡ true → blocks old ≡ true)
    → (i : String) (a : Order) → lookup i (insert o.client_order_id o orders) ≡ some a
    → blocks a ≡ true
    → (a' : Order) × (lookup i orders ≡ some a') × (blocks a' ≡ true)
blocked_before orders o old known keeps i a p u =
    let q = sym (lookup-insert o.client_order_id i o orders) ∙ p in
    elim (Bool-cases (str_eq o.client_order_id i)) [
      | inl e ↦
          let same : o ≡ a = eq_of_some (rw e at q) in
          (
            old,
            subst (λ x. lookup x orders ≡ some old) ((eq_iff o.client_order_id i).0 e) known,
            keeps (ap (λ (x : Order). blocks x) same ∙ u),
          )
      | inr e ↦ (a, rw e at q, u)
    ]

update-IsSingle :
    (orders : Dict Order) (o old : Order)
    → lookup o.client_order_id orders ≡ some old
    → (blocks o ≡ true → blocks old ≡ true)
    → IsSingle orders
    → IsSingle (insert o.client_order_id o orders)
update-IsSingle orders o old known keeps single = λ i j a b p q u v.
    let (a', p', u') = blocked_before orders o old known keeps i a p u in
    let (b', q', v') = blocked_before orders o old known keeps j b q v in
    single i j a' b' p' q' u' v'

-- Where nothing was unresolved, writes under one id leave one unresolved at most.
written_only :
    (orders : Dict Order) (id : String) (o : Order)
    → ((i : String) (a : Order) → lookup i orders ≡ some a → blocks a ≡ true → i ≡ id)
    → (i : String) (a : Order) → lookup i (insert id o orders) ≡ some a
    → blocks a ≡ true
    → i ≡ id
written_only orders id o only i a p u = elim (Bool-cases (str_eq id i)) [
  | inl e ↦ sym ((eq_iff id i).0 e)
  | inr e ↦ let q = sym (lookup-insert id i o orders) ∙ p in only i a (rw e at q) u
]

module _ {F : Type 0} (d : Doubles F) where
  checked-none_blocks :
      (cfg : LiveConfig F) (r : Replies F) (order : NewOrder) (s : Engine)
      → check_submission d cfg r order s ≡ done tt
      → has_unresolved s.orders ≡ false
  unfolding check_submission
  checked-none_blocks cfg r order s h =
      let (_, h1) = throw_if-done (not r.ledger_readable) ledger_corrupt _ h in
      (throw_if-done (has_unresolved s.orders) unresolved_exists _ h1).0

  submit-IsSingle :
      (cfg : LiveConfig F) (r : Replies F) (order : NewOrder) (s : Engine)
      → IsSingle s.orders
      → IsSingle (submit d cfg r order s).1.orders
  submit-IsSingle cfg r order s single = elim (submit_cases d cfg r order s) [
    | inl quiet ↦ subst IsSingle (sym quiet.same_orders) single
    | inr x ↦
        let id : String = order.client_order_id in
        let c : Order = build_recorded order created none r.created_at in
        let none_open = checked-none_blocks cfg r order s x.checked in
        let only_before =
          λ (i : String) (a : Order) (p : lookup i s.orders ≡ some a) (u : blocks a ≡ true).
            let absurd_id : i ≡ id = cc (none_blocks s.orders i a none_open p) in absurd_id in
        let only_ready : (i : String) (a : Order)
            → lookup i x.ready.orders ≡ some a
            → blocks a ≡ true
            → i ≡ id =
          subst (λ m. (i : String) (a : Order) → lookup i m ≡ some a → blocks a ≡ true → i ≡ id)
            (sym (ready-IsQuiet d cfg r order s x.ready x.prepared).same_orders) only_before in
        let only_sending : (i : String) (a : Order)
            → lookup i (sending cfg r order x.ready).orders ≡ some a
            → blocks a ≡ true
            → i ≡ id =
          unfold saved build_recorded in written_only x.ready.orders id c only_ready in
        elim (Ending-IsEnded cfg r order _ _ x.ending).entry [
          | inl e ↦ subst IsSingle (sym e) (IsSingle-at _ id only_sending)
          | inr (o, _, e) ↦
              subst IsSingle (sym e) (IsSingle-at _ id (written_only _ id o only_sending))
        ]
  ]

  Step-IsSingle : {s t : Engine} → Step d s t → IsSingle s.orders → IsSingle t.orders
  unfolding saved
  Step-IsSingle {s} {t} (submits cfg r order e) single =
      subst (λ (x : Engine). IsSingle x.orders) (sym e) (submit-IsSingle cfg r order s single)
  Step-IsSingle {s} {t} (updates o old known keeps e) single =
      subst (λ (x : Engine). IsSingle x.orders) (sym e)
        (update-IsSingle s.orders o old known keeps single)

  -- At most one live order is unresolved (CREATED, SUBMITTED, OPEN, PARTIALLY_FILLED or UNKNOWN) in any
  -- state reached from one of which this holds, by submissions, whatever the disk and the exchange
  -- answer, and by updates of orders on the ledger that leave a resolved order resolved.
  pub Reach-IsSingle : {s t : Engine} → Reach d s t → IsSingle s.orders → IsSingle t.orders
  Reach-IsSingle here single = single
  Reach-IsSingle (next path step) single = Step-IsSingle step (Reach-IsSingle path single)
