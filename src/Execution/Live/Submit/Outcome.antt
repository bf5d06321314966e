-- ===== src/Execution/Live/Submit/Outcome.antt =====
-- execution/LiveExecutionEngine.ts: what a BUY leaves reserved, whatever comes of its submission.
use cryptotradingbot.Common.{
  ◌≡◌, ◌⊎◌, inl, inr, ℕ, refl, sym, subst, ap, ◌∙◌, true, Option, none, some, String, eq_of_some,
  arith,
}
use cryptotradingbot.Common.Dict.{Dict, lookup, insert, lookup-insert_self}
use cryptotradingbot.Common.Result.{ok, >>=-eq-ok, Result-cases}
use cryptotradingbot.Money.{Money}
use cryptotradingbot.Portfolio.Model.{Portfolio, OrderReservation, active}
use cryptotradingbot.Portfolio.Reserve.Steps.{reserve_order-ok}
use cryptotradingbot.Reconcile.Model.{Order, OrderStatus, created, order_rejected}
use cryptotradingbot.Risk.Doubles.{Doubles}
use cryptotradingbot.Execution.Live.Model
use cryptotradingbot.Execution.Live.Model.{
  NewOrder, LiveConfig, Replies, Engine, Attempt, thrown, loaded, corrupt, missing, unusable,
  build_recorded, saved, reserved_quote,
}
use cryptotradingbot.Execution.Live.Hooks.{
  quote_or_empty, reserved_cost, reserved_portfolio, reserve,
}
use cryptotradingbot.Execution.Live.Submit.{is_unresolved, is_buy, sending, submit}
use cryptotradingbot.Execution.Live.Submit.Shape.{
  Ending, kept, unwritten, definitely_rejected, rejected_unwritten, IsReady, submit_cases,
  release_if_buy-IsQuiet,
}

module _ {F : Type 0} (d : Doubles F) (cfg : LiveConfig F) (order : NewOrder) where
  -- The portfolio holds back the whole of what the order may cost.
  pub record IsFunded (m : Portfolio) : Type 0 where
    pub cost : Money
    pub costed : reserved_cost d cfg order ≡ ok cost
    pub reservation : OrderReservation
    pub found : lookup order.client_order_id m.order_reservations ≡ some reservation
    pub is_held : reservation.status ≡ active
    pub whole : reservation.remaining ≡ cost

  reserved_portfolio-IsFunded :
      (m : Portfolio) {n : Portfolio} → reserved_portfolio d cfg order m ≡ ok n → IsFunded n
  unfolding reserved_portfolio
  reserved_portfolio-IsFunded m {n} h =
      let (cost, costed, next) = >>=-eq-ok (reserved_cost d cfg order) _ h in
      let (_, _, _, e) =
        reserve_order-ok m order.client_order_id (quote_or_empty order.symbol) cost n next in
      let held : OrderReservation = record {
        order_id = order.client_order_id;
        currency = quote_or_empty order.symbol;
        amount = cost;
        remaining = cost;
        status = active;
      } in
      record {
        cost = cost;
        costed = costed;
        reservation = held;
        found =
            ap (λ (p : Portfolio). lookup order.client_order_id p.order_reservations) e
            ∙ lookup-insert_self order.client_order_id held m.order_reservations;
        is_held = refl;
        whole = refl;
      }

  reserve-some :
      (r : Replies F) (s : Engine) {t : Engine}
      → reserve d cfg r order s ≡ some t
      → (next : Portfolio) × (reserved_portfolio d cfg order s.managed ≡ ok next)
        × (t.managed ≡ next)
  unfolding reserve
  reserve-some r s {t} h = elim (Result-cases (reserved_portfolio d cfg order s.managed)) [
    | inl (e, f) ↦ absurd (ground (arith, f, h))
    | inr (next, f) ↦ (next, f, ground (arith, f, h))
  ]

  reserve-IsFunded :
      (r : Replies F) (s : Engine) {t : Engine}
      → reserve d cfg r order s ≡ some t
      → IsFunded t.managed
  unfolding reserve
  reserve-IsFunded r s {t} h =
      let (next, e, f) = reserve-some r s h in
      subst IsFunded (sym f) (reserved_portfolio-IsFunded s.managed e)

some_ne_none : {A : Type 0} {a : A} → some a ≡ none → ⊥
some_ne_none h = cc

-- What is found under the key that was written last.
found_written :
    (id : String) (c o : Order) (orders : Dict Order)
    → lookup id (insert id c orders) ≡ some o
    → o ≡ c
found_written id c o orders l = eq_of_some (sym l ∙ lookup-insert_self id c orders)

module _ {F : Type 0} (d : Doubles F) (cfg : LiveConfig F) (r : Replies F) (order : NewOrder) where
  -- The order may still be on the exchange, and its cost is held back.
  abbrev pub IsKept : Order → Portfolio → Type 0
  IsKept o m = (is_unresolved o.order_status ≡ true) × IsFunded d cfg order m

  -- The exchange's answer was a definite rejection, which is recorded where the write succeeds.
  abbrev pub IsRejected : Order → Type 0
  IsRejected o =
      (r.placed ≡ thrown Model.order_rejected)
      × ((o.order_status ≡ order_rejected) ⊎ (o.order_status ≡ created))

  -- The ledger's entry of the order, while it is sent.
  sending_created :
      (s : Engine) (o : Order)
      → lookup order.client_order_id (sending cfg r order s).orders ≡ some o
      → o.order_status ≡ created
  unfolding saved build_recorded
  sending_created s o l =
      ap (λ (x : Order). x.order_status)
        (found_written order.client_order_id (build_recorded order created none r.created_at) o
          s.orders l)

  written_status :
      (s t : Engine) (status : OrderStatus) (x : Option String) (now : ℕ) (o : Order)
      → t ≡ saved (build_recorded order status x now) s
      → lookup order.client_order_id t.orders ≡ some o
      → o.order_status ≡ status
  unfolding saved build_recorded
  written_status s t status x now o e l =
      ap (λ (x : Order). x.order_status)
        (found_written order.client_order_id (build_recorded order status x now) o s.orders
          (subst (λ (y : Engine). lookup order.client_order_id y.orders ≡ some o) e l))

  ready-IsFunded :
      (s t : Engine)
      → cfg.reserves_quote ≡ true
      → is_buy order.side ≡ true
      → IsReady d cfg r order s t
      → IsFunded d cfg order t.managed
  ready-IsFunded s t hooks side (inl (b, e)) = reserve-IsFunded d cfg order r s e
  ready-IsFunded s t hooks side (inr (b, e)) = absurd (ground (arith, hooks, side, b))

  ended-IsKept :
      (s t : Engine)
      → IsFunded d cfg order s.managed
      → Ending cfg r order (sending cfg r order s) t
      → (o : Order) → lookup order.client_order_id t.orders ≡ some o
      → IsKept o t.managed ⊎ IsRejected o
  unfolding saved is_unresolved
  ended-IsKept s t f (kept status x now u e) o l = inl (
    rw (written_status _ t status x now o e l) u,
    subst (λ (y : Engine). IsFunded d cfg order y.managed) (sym e) f,
  )
  ended-IsKept s t f (unwritten e) o l =
      let c =
        sending_created s o
          (subst (λ (y : Engine). lookup order.client_order_id y.orders ≡ some o) e l) in
      inl (rw c refl, subst (λ (y : Engine). IsFunded d cfg order y.managed) (sym e) f)
  ended-IsKept s t f (definitely_rejected p e) o l =
      inr (p, inl (written_status _ t order_rejected none r.fallback_at o e l))
  ended-IsKept s t f (rejected_unwritten p e) o l =
      let q = release_if_buy-IsQuiet cfg r order (sending cfg r order s) in
      inr (
        p,
        inr (
            sending_created s o (
              subst (λ m. lookup order.client_order_id m ≡ some o) q.same_orders
                (subst (λ (y : Engine). lookup order.client_order_id y.orders ≡ some o) e l))),
      )

  -- Of a BUY whose client order id is new, with the hooks of liveHooks.ts: if it is on the ledger after
  -- its submission, whatever the disk and the exchange answered, then it is unresolved there and the
  -- portfolio actively reserves the whole of its limit notional and fee, or else the exchange's answer was
  -- a definite rejection, and the ledger says REJECTED, or CREATED where that write failed.
  pub submit-IsKept :
      (s : Engine) (o : Order)
      → cfg.reserves_quote ≡ true
      → is_buy order.side ≡ true
      → lookup order.client_order_id s.orders ≡ none
      → let after = (submit d cfg r order s).1 in
        lookup order.client_order_id after.orders ≡ some o → IsKept o after.managed ⊎ IsRejected o
  submit-IsKept s o hooks side new l = elim (submit_cases d cfg r order s) [
    | inl q ↦ absurd (some_ne_none (sym l ∙ ap (lookup order.client_order_id) q.same_orders ∙ new))
    | inr x ↦ ended-IsKept x.ready _ (ready-IsFunded s x.ready hooks side x.prepared) x.ending o l
  ]
