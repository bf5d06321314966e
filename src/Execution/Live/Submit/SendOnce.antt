-- ===== src/Execution/Live/Submit/SendOnce.antt =====
-- execution/LiveExecutionEngine.ts: an order is recorded before it is sent, and sent once.
use cryptotradingbot.Common.{
  ◌≡◌, inl, inr, refl, sym, subst, ap, ◌∙◌, true, false, none, some, List, [], ◌∷◌, String, str_eq,
  eq_iff, eq_refl, arith, Bool-cases, if◌then◌else◌,
}
use cryptotradingbot.Common.Dict.{Dict, lookup, insert, contains, lookup-insert}
use cryptotradingbot.Reconcile.Model.{Order, created}
use cryptotradingbot.Risk.Doubles.{Doubles}
use cryptotradingbot.Execution.Live.Model.{
  NewOrder, LiveConfig, Replies, Engine, build_recorded, saved,
}
use cryptotradingbot.Execution.Live.Submit.{sending, submit}
use cryptotradingbot.Execution.Live.Submit.Shape.{
  IsEnded, Ending-IsEnded, ready-IsQuiet, submit_cases,
}
use cryptotradingbot.Execution.Live.Submit.Quiet.{sent_orders, IsRecordedFirst, IsQuiet}
use cryptotradingbot.Execution.Live.Submit.InFlight.{Step, submits, updates, Reach, here, next}

abbrev pub Has : String → Dict Order → Type 0
Has id orders = (o : Order) × (lookup id orders ≡ some o)

-- No order in the list has the id.
abbrev pub IsAbsent : String → List NewOrder → Type 0
IsAbsent id [] = Unit
IsAbsent id (o ∷ rest) = (str_eq o.client_order_id id ≡ false) × IsAbsent id rest

-- The orders are on the ledger, each under an id of its own.
abbrev pub IsDistinct : Dict Order → List NewOrder → Type 0
IsDistinct orders [] = Unit
IsDistinct orders (o ∷ rest) =
    Has o.client_order_id orders × IsAbsent o.client_order_id rest × IsDistinct orders rest

pub record IsSentOnce (s : Engine) : Type 0 where
  pub distinct : IsDistinct s.orders (sent_orders s.events)
  pub recorded_first : IsRecordedFirst s.events

Has-insert :
    (id key : String) (o : Order) (orders : Dict Order)
    → Has id orders
    → Has id (insert key o orders)
Has-insert id key o orders (a, e) = elim (Bool-cases (str_eq key id)) [
  | inl b ↦ (o, lookup-insert key id o orders ∙ ap (λ c. if c then some o else lookup id orders) b)
  | inr b ↦
      (a, lookup-insert key id o orders ∙ ap (λ c. if c then some o else lookup id orders) b ∙ e)
]

Has-insert_self : (id : String) (o : Order) (orders : Dict Order) → Has id (insert id o orders)
Has-insert_self id o orders = (
  o,
  lookup-insert id id o orders ∙ ap (λ c. if c then some o else lookup id orders) (eq_refl id),
)

IsDistinct-insert :
    (key : String) (o : Order) (orders : Dict Order) (sents : List NewOrder)
    → IsDistinct orders sents
    → IsDistinct (insert key o orders) sents
IsDistinct-insert key o orders [] h = tt
IsDistinct-insert key o orders (x ∷ rest) h =
    (Has-insert x.client_order_id key o orders h.0, h.1, IsDistinct-insert key o orders rest h.2)

-- An id that is not on the ledger was not sent.
Has-contains : (id : String) (orders : Dict Order) → Has id orders → contains id orders ≡ true
Has-contains id orders (a, e) = rw (e, contains)

-- An id that is not on the ledger was not sent.
IsAbsent-of_new :
    (id : String) (orders : Dict Order) (sents : List NewOrder)
    → contains id orders ≡ false
    → IsDistinct orders sents
    → IsAbsent id sents
IsAbsent-of_new id orders [] n h = tt
IsAbsent-of_new id orders (x ∷ rest) n h = (
  elim (Bool-cases (str_eq x.client_order_id id)) [
    | inl e ↦
        let known =
          Has-contains id orders
            (subst (λ k. Has k orders) ((eq_iff x.client_order_id id).0 e) h.0) in
        absurd (ground (arith, known, n))
    | inr e ↦ e
  ],
  IsAbsent-of_new id orders rest n h.2,
)

quiet-IsSentOnce : (s t : Engine) → IsQuiet s t → IsSentOnce s → IsSentOnce t
quiet-IsSentOnce s t q v = record {
  distinct = rw (q.same_orders, q.same_sent) v.distinct;
  recorded_first = q.still_recorded v.recorded_first;
}

module _ {F : Type 0} (cfg : LiveConfig F) (r : Replies F) (order : NewOrder) where
  sending-IsSentOnce :
      (s : Engine)
      → contains order.client_order_id s.orders ≡ false
      → IsSentOnce s
      → IsSentOnce (sending cfg r order s)
  unfolding saved build_recorded sent_orders
  sending-IsSentOnce s n v =
      let c : Order = build_recorded order created none r.created_at in
      record {
        distinct = (
          Has-insert_self order.client_order_id c s.orders,
          IsAbsent-of_new order.client_order_id s.orders (sent_orders s.events) n v.distinct,
          IsDistinct-insert order.client_order_id c s.orders (sent_orders s.events) v.distinct,
        );
        recorded_first = (inl (refl, refl), v.recorded_first);
      }

  ended-IsSentOnce : (s t : Engine) → IsEnded cfg r order s t → IsSentOnce s → IsSentOnce t
  ended-IsSentOnce s t x v =
      let kept : IsDistinct s.orders (sent_orders t.events) = rw x.sent_same v.distinct in
      record {
        distinct = elim x.entry [
          | inl e ↦ subst (λ m. IsDistinct m (sent_orders t.events)) (sym e) kept
          | inr (o, _, e) ↦
              subst (λ m. IsDistinct m (sent_orders t.events)) (sym e)
                (IsDistinct-insert order.client_order_id o s.orders (sent_orders t.events) kept)
        ];
        recorded_first = x.recorded_still v.recorded_first;
      }

module _ {F : Type 0} (d : Doubles F) where
  submit-IsSentOnce :
      (cfg : LiveConfig F) (r : Replies F) (order : NewOrder) (s : Engine)
      → IsSentOnce s
      → IsSentOnce (submit d cfg r order s).1
  submit-IsSentOnce cfg r order s v = elim (submit_cases d cfg r order s) [
    | inl q ↦ quiet-IsSentOnce s _ q v
    | inr x ↦
        let q = ready-IsQuiet d cfg r order s x.ready x.prepared in
        let n : contains order.client_order_id x.ready.orders ≡ false =
          subst (λ m. contains order.client_order_id m ≡ false) (sym q.same_orders) x.is_new in
        ended-IsSentOnce cfg r order _ _ (Ending-IsEnded cfg r order _ _ x.ending)
          (sending-IsSentOnce cfg r order x.ready n (quiet-IsSentOnce s x.ready q v))
  ]

  Step-IsSentOnce : {s t : Engine} → Step d s t → IsSentOnce s → IsSentOnce t
  unfolding saved sent_orders
  Step-IsSentOnce {s} {t} (submits cfg r order e) v =
      subst IsSentOnce (sym e) (submit-IsSentOnce cfg r order s v)
  Step-IsSentOnce {s} {t} (updates o old known keeps e) v = subst IsSentOnce (sym e) (record {
    distinct = IsDistinct-insert o.client_order_id o s.orders (sent_orders s.events) v.distinct;
    recorded_first = v.recorded_first;
  })

  -- In any state reached from one of which this holds, by submissions, whatever the disk and the exchange
  -- answer, and by updates of orders on the ledger: no two SendOrder calls carried the same client order
  -- id, every order sent is on the ledger, and it had been recorded as CREATED before it was sent.
  pub Reach-IsSentOnce : {s t : Engine} → Reach d s t → IsSentOnce s → IsSentOnce t
  Reach-IsSentOnce here v = v
  Reach-IsSentOnce (next path step) v = Step-IsSentOnce step (Reach-IsSentOnce path v)
