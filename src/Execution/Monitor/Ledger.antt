-- ===== src/Execution/Monitor/Ledger.antt =====
-- execution/LiveOrderMonitor.ts: what a cycle does to the order ledger.
use cryptotradingbot.Common.{
  ◌≡◌, ◌⊎◌, refl, sym, ap, ◌∙◌, subst, true, inl, inr, Option, some, none, String, str_eq, eq_iff,
  Bool-cases, Option-cases, arith, eq_of_some,
}
use cryptotradingbot.Common.Dict.{Dict, lookup, lookup-insert}
use cryptotradingbot.Reconcile.Model.{Order, OrderStatus}
use cryptotradingbot.Execution.Live.Model.{Engine, saved}
use cryptotradingbot.Execution.Live.Submit.{is_unresolved, blocks}
use cryptotradingbot.Execution.Live.Submit.InFlight.{IsSingle}
use cryptotradingbot.Execution.Live.Recover.Attach.{IsNamed}
use cryptotradingbot.Execution.Monitor.Trades.{Progress}
use cryptotradingbot.Execution.Monitor.Cycle.{monitor_once-keeps}
use cryptotradingbot.Execution.Monitor.{
  adopted, follow_order, follow_current, follow_evidence, monitor_once,
}
use cryptotradingbot.Execution.Monitor.Evidence.{MonitorReplies, OrderEvidence, is_observed_status}

-- An order of the ledger, unresolved before, with its identity, reason and creation time kept.
pub record IsFollowed (orders later : Dict Order) (id : String) : Type 0 where
  pub old : Order
  pub now : Order
  pub was : lookup id orders ≡ some old
  pub was_observed : is_observed_status old.order_status ≡ true
  pub is_now : lookup id later ≡ some now
  pub same_id : now.client_order_id ≡ old.client_order_id
  pub same_reason : now.reason ≡ old.reason
  pub same_creation : now.created_at_ms ≡ old.created_at_ms

abbrev pub Follows : Dict Order → Dict Order → Type 0
Follows orders later =
    (id : String) → (lookup id later ≡ lookup id orders) ⊎ IsFollowed orders later id

saved-Follows :
    (orders : Dict Order) (s : Engine) (current authoritative : Order)
    → lookup current.client_order_id orders ≡ some current
    → is_observed_status current.order_status ≡ true
    → Follows orders s.orders
    → Follows orders (saved (adopted authoritative current) s).orders
unfolding saved
saved-Follows orders s current authoritative known still f id =
    let key = current.client_order_id in
    let updated = adopted authoritative current in
    let after = lookup-insert key id updated s.orders in
    elim (Bool-cases (str_eq key id)) [
      | inl e ↦ inr (record {
        old = current;
        now = updated;
        was = subst (λ k. lookup k orders ≡ some current) ((eq_iff key id).0 e) known;
        was_observed = still;
        is_now = rw e at after;
        same_id = refl;
        same_reason = refl;
        same_creation = refl;
      })
      | inr n ↦ elim (f id) [
        | inl same ↦ inl ((rw n at after) ∙ same)
        | inr x ↦ inr (record {
          old = x.old;
          now = x.now;
          was = x.was;
          was_observed = x.was_observed;
          is_now = (rw n at after) ∙ x.is_now;
          same_id = x.same_id;
          same_reason = x.same_reason;
          same_creation = x.same_creation;
        })
      ]
    ]

follow_order-Follows :
    (r : MonitorReplies) (orders : Dict Order) (current : Order) (ev : OrderEvidence) (s : Engine)
    (p : Progress)
    → lookup current.client_order_id orders ≡ some current
    → is_observed_status current.order_status ≡ true
    → Follows orders s.orders
    → Follows orders (follow_order r orders current ev (s, p)).1.0.orders
unfolding follow_order
follow_order-Follows r orders current ev s p known still f =
    elim (Bool-cases (r.order_saved (adopted ev.authoritative current))) [
      | inl e ↦ rw e (saved-Follows orders s current ev.authoritative known still f)
      | inr e ↦ rw e f
    ]

follow_evidence-Follows :
    (r : MonitorReplies) (orders : Dict Order) (id : String) (found : Option OrderEvidence)
    (s : Engine) (p : Progress)
    → IsNamed orders
    → Follows orders s.orders
    → Follows orders (follow_evidence r orders id found (s, p)).1.0.orders
unfolding follow_evidence follow_current
follow_evidence-Follows r orders id none s p named f = f
follow_evidence-Follows r orders id (some ev) s p named f = elim (Option-cases (lookup id orders)) [
  | inl e ↦ rw e f
  | inr (current, e) ↦ elim (Bool-cases (is_observed_status current.order_status)) [
    | inr closed ↦ rw (e, closed) f
    | inl still ↦
        let known = subst (λ k. lookup k orders ≡ some current) (sym (named id current e)) e in
        rw (e, still) (follow_order-Follows r orders current ev s p known still f)
  ]
]

-- A cycle changes orders of the ledger only where they are unresolved when the lock is taken, whatever was
-- read before it, and whatever the exchange and the disk answer; each of them keeps its id, its reason and
-- its creation time.
pub monitor_once-Follows :
    (r : MonitorReplies) (before : Dict Order) (s : Engine)
    → IsNamed s.orders
    → Follows s.orders (monitor_once r before s).1.orders
monitor_once-Follows r before s named =
    monitor_once-keeps r before s (λ x. Follows s.orders x.0.orders)
      (λ id found x g f. follow_evidence-Follows r s.orders id found x.0 x.1 named f)
      (λ t. Follows s.orders t.orders) (λ id. inl refl) (λ x f. f) (λ x f. f)
      (λ report id. inl refl)

observed_unresolved :
    (status : OrderStatus) → is_observed_status status ≡ true → is_unresolved status ≡ true
unfolding is_observed_status is_unresolved
observed_unresolved status h = ground (arith, h)

-- An order that blocks placement later blocked it before.
blocked_before :
    (orders later : Dict Order) (id : String) (b : Order)
    → Follows orders later
    → lookup id later ≡ some b
    → blocks b ≡ true
    → (a : Order) × (lookup id orders ≡ some a) × (blocks a ≡ true)
blocked_before orders later id b f l u = elim (f id) [
  | inl same ↦ (b, sym same ∙ l, u)
  | inr x ↦
      let now_is : x.now ≡ b = eq_of_some (sym x.is_now ∙ l) in
      let same_id : x.old.client_order_id ≡ b.client_order_id =
        sym x.same_id ∙ ap (λ (o : Order). o.client_order_id) now_is in
      (
        x.old,
        x.was,
        ground (arith, u, same_id, observed_unresolved x.old.order_status x.was_observed),
      )
]

-- A cycle keeps at most one live order unresolved.
pub monitor_once-IsSingle :
    (r : MonitorReplies) (before : Dict Order) (s : Engine)
    → IsNamed s.orders
    → IsSingle s.orders
    → IsSingle (monitor_once r before s).1.orders
monitor_once-IsSingle r before s named single = λ i j a b l m u v.
    let f = monitor_once-Follows r before s named in
    let (a', l', u') = blocked_before s.orders _ i a f l u in
    let (b', m', v') = blocked_before s.orders _ j b f m v in single i j a' b' l' m' u' v'
