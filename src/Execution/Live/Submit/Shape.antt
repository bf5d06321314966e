-- ===== src/Execution/Live/Submit/Shape.antt =====
-- execution/LiveExecutionEngine.ts: the two shapes of a submission, one that sends nothing and one that
-- records the order as CREATED, sends it and records what came of it.
use cryptotradingbot.Common.{
  ◌≡◌, ◌⊎◌, inl, inr, refl, sym, subst, ap, ◌∙◌, ℕ, Bool, true, false, ◌&&◌, Option, none, some,
  String, arith, Option-cases, if_cases,
}
use cryptotradingbot.Common.Dict.{contains, insert}
use cryptotradingbot.Reconcile.Model.{Order, OrderStatus, submitted, order_rejected, unknown_status}
use cryptotradingbot.Risk.Doubles.{Doubles}
use cryptotradingbot.Execution.Live.Model
use cryptotradingbot.Execution.Live.Model.{
  NewOrder, LiveConfig, Replies, Engine, Event, LiveOrderResult, LiveError, Attempt, Attempt-cases,
  done, thrown, PlaceOrderResult, loaded, corrupt, missing, unusable, save_failed, build_recorded,
  saved, sent, recorded, reserved_quote, released_quote,
}
use cryptotradingbot.Execution.Live.Hooks.{managed_order_guard, reserve}
use cryptotradingbot.Execution.Live.Submit.{
  is_unresolved, is_buy, release_if_buy, fallback, handle_submission_error, record_outcome,
  after_placing, sending, persist_and_send, reserve_and_send, guard_and_send, check_submission,
  submit,
}
use cryptotradingbot.Execution.Live.Submit.Quiet.{
  sent_orders, IsRecordedFirst, IsQuiet, IsQuiet-refl, release-IsQuiet, reserve-IsQuiet,
}

module _ {F : Type 0} (cfg : LiveConfig F) (r : Replies F) (order : NewOrder) where
  pub release_if_buy-IsQuiet : (s : Engine) → IsQuiet s (release_if_buy cfg r order s)
  unfolding release_if_buy
  release_if_buy-IsQuiet s = ground (arith, release-IsQuiet r order s)

  -- What becomes of an order that was sent: it is recorded with a status that leaves it unresolved, or
  -- as rejected where the exchange said so, and only then its quote is released; or the write fails.
  pub data Ending (s t : Engine) : Type 0 where
    kept :
        (status : OrderStatus) (exchange_id : Option String) (now : ℕ)
        → is_unresolved status ≡ true
        → t ≡ saved (build_recorded order status exchange_id now) s
        → Ending s t
    unwritten : t ≡ s → Ending s t
    definitely_rejected :
        r.placed ≡ thrown Model.order_rejected
        → t
          ≡ saved
              (build_recorded order order_rejected none r.fallback_at)
              (release_if_buy cfg r order s)
        → Ending s t
    rejected_unwritten :
        r.placed ≡ thrown Model.order_rejected → t ≡ release_if_buy cfg r order s → Ending s t

  abbrev Ends : Engine → Attempt LiveOrderResult × Engine → Type 0
  Ends s x = Ending s x.1

  unknown-Ending : (s : Engine) → Ending s (fallback cfg r order unknown_status true s).1
  unfolding fallback is_unresolved
  unknown-Ending s =
      if_cases (Ends s) r.fallback_saved _ _ (λ _. kept unknown_status none r.fallback_at refl refl)
        (λ _. unwritten refl)

  rejected-Ending :
      (s : Engine)
      → r.placed ≡ thrown Model.order_rejected
      → Ending s (fallback cfg r order order_rejected false (release_if_buy cfg r order s)).1
  unfolding fallback
  rejected-Ending s p =
      if_cases (Ends s) r.fallback_saved _ _ (λ _. definitely_rejected p refl)
        (λ _. rejected_unwritten p refl)

  handle-Ending :
      (e : LiveError) (s : Engine)
      → r.placed ≡ thrown e
      → Ending s (handle_submission_error cfg r order e s).1
  unfolding handle_submission_error
  handle-Ending Model.order_rejected s p = rejected-Ending s p
  handle-Ending e s p = unknown-Ending s

  record-Ending :
      (status : OrderStatus) (exchange_id : Option String) (unknown : Bool) (s : Engine)
      → is_unresolved status ≡ true
      → Ending s (record_outcome cfg r order status exchange_id unknown s).1
  unfolding record_outcome handle_submission_error
  record-Ending status exchange_id unknown s u =
      if_cases (Ends s) r.outcome_saved _ _ (λ _. kept status exchange_id r.outcome_at u refl)
        (λ _. unknown-Ending s)

  placed-Ending :
      (placed : Attempt PlaceOrderResult) (s : Engine)
      → r.placed ≡ placed
      → Ending s (after_placing cfg r order placed s).1
  unfolding after_placing is_unresolved
  placed-Ending (thrown e) s p = handle-Ending e s p
  placed-Ending (done result) s p =
      if_cases (Ends s) result.unknown_outcome _ _
        (λ _. record-Ending unknown_status result.exchange_order_id true s refl)
        (λ _. record-Ending submitted result.exchange_order_id false s refl)

  -- Of the ledger, an ending touches the order's entry at most.
  pub record IsEnded (s t : Engine) : Type 0 where
    pub entry :
        (t.orders ≡ s.orders)
        ⊎ ((o : Order) × (o.client_order_id ≡ order.client_order_id)
            × (t.orders ≡ insert order.client_order_id o s.orders))
    pub sent_same : sent_orders t.events ≡ sent_orders s.events
    pub recorded_still : IsRecordedFirst s.events → IsRecordedFirst t.events

  written-IsEnded :
      (status : OrderStatus) (exchange_id : Option String) (now : ℕ) (s t : Engine)
      → IsQuiet s t
      → IsEnded s (saved (build_recorded order status exchange_id now) t)
  unfolding saved build_recorded sent_orders
  written-IsEnded status exchange_id now s t q = record {
    entry = inr (
      build_recorded order status exchange_id now,
      refl,
      ap (insert order.client_order_id (build_recorded order status exchange_id now)) q.same_orders,
    );
    sent_same = q.same_sent;
    recorded_still = q.still_recorded;
  }

  quiet-IsEnded : (s t : Engine) → IsQuiet s t → IsEnded s t
  quiet-IsEnded s t q = record {
    entry = inl q.same_orders;
    sent_same = q.same_sent;
    recorded_still = q.still_recorded;
  }

  pub Ending-IsEnded : (s t : Engine) → Ending s t → IsEnded s t
  Ending-IsEnded s t (kept status exchange_id now u e) =
      subst (IsEnded s) (sym e) (written-IsEnded status exchange_id now s s (IsQuiet-refl s))
  Ending-IsEnded s t (unwritten e) = subst (IsEnded s) (sym e) (quiet-IsEnded s s (IsQuiet-refl s))
  Ending-IsEnded s t (definitely_rejected p e) =
      subst (IsEnded s) (sym e)
        (written-IsEnded order_rejected none r.fallback_at s _ (release_if_buy-IsQuiet s))
  Ending-IsEnded s t (rejected_unwritten p e) =
      subst (IsEnded s) (sym e) (quiet-IsEnded s _ (release_if_buy-IsQuiet s))

module _ {F : Type 0} (d : Doubles F) (cfg : LiveConfig F) (r : Replies F) (order : NewOrder) where
  -- A BUY with the hooks has reserved its quote; nothing else changed.
  abbrev pub IsReady : Engine → Engine → Type 0
  IsReady s t =
      ((cfg.reserves_quote && is_buy order.side ≡ true) × (reserve d cfg r order s ≡ some t))
      ⊎ ((cfg.reserves_quote && is_buy order.side ≡ false) × (t ≡ s))

  -- A submission that reached the exchange.
  pub record IsSubmission (s final : Engine) : Type 0 where
    pub checked : check_submission d cfg r order s ≡ done tt
    pub guarded :
        cfg.guards_managed_state && managed_order_guard r.managed_file s.managed order ≡ false
    pub is_new : contains order.client_order_id s.orders ≡ false
    pub ready : Engine
    pub prepared : IsReady s ready
    pub ending : Ending cfg r order (sending cfg r order ready) final

  abbrev pub Shape : Engine → Attempt LiveOrderResult × Engine → Type 0
  Shape s x = IsQuiet s x.1 ⊎ IsSubmission s x.1

  persist_cases :
      (s t : Engine)
      → check_submission d cfg r order s ≡ done tt
      → cfg.guards_managed_state && managed_order_guard r.managed_file s.managed order ≡ false
      → contains order.client_order_id s.orders ≡ false
      → IsReady s t
      → IsQuiet s t
      → Shape s (persist_and_send cfg r order t)
  unfolding persist_and_send
  persist_cases s t c g n ready quiet =
      if_cases (Shape s) r.created_saved _ (thrown save_failed, release_if_buy cfg r order t)
        (λ _. inr (record {
          checked = c;
          guarded = g;
          is_new = n;
          ready = t;
          prepared = ready;
          ending = placed-Ending cfg r order r.placed _ refl;
        }))
        (λ _. inl (
          let q = release_if_buy-IsQuiet cfg r order t in
          record {
            same_orders = q.same_orders ∙ quiet.same_orders;
            same_sent = q.same_sent ∙ quiet.same_sent;
            still_recorded = λ h. q.still_recorded (quiet.still_recorded h);
          }))

  reserve_cases :
      (s : Engine)
      → check_submission d cfg r order s ≡ done tt
      → cfg.guards_managed_state && managed_order_guard r.managed_file s.managed order ≡ false
      → contains order.client_order_id s.orders ≡ false
      → Shape s (reserve_and_send d cfg r order s)
  unfolding reserve_and_send
  reserve_cases s c g n =
      if_cases (Shape s) (cfg.reserves_quote && is_buy order.side) _ _
        (λ b. elim (Option-cases (reserve d cfg r order s)) [
          | inl e ↦ rw (e, reserve_and_send) (inl (release-IsQuiet r order s))
          | inr (t, e) ↦
              rw (e, reserve_and_send)
                (persist_cases s t c g n (inl (b, e)) (reserve-IsQuiet r order d cfg s e))
        ])
        (λ b. persist_cases s s c g n (inr (b, refl)) (IsQuiet-refl s))

  pub submit_cases : (s : Engine) → Shape s (submit d cfg r order s)
  unfolding submit guard_and_send
  submit_cases s = elim (Attempt-cases (check_submission d cfg r order s)) [
    | inl (e, c) ↦ rw (c, submit) (inl (IsQuiet-refl s))
    | inr (_, c) ↦
        rw (c, submit)
          (if_cases (Shape s)
            (cfg.guards_managed_state && managed_order_guard r.managed_file s.managed order) _ _
            (λ _. inl (IsQuiet-refl s))
            (λ g.
              if_cases (Shape s) (contains order.client_order_id s.orders) _ _
                (λ _. inl (IsQuiet-refl s)) (λ n. reserve_cases s c g n)))
  ]

  -- Before a submission sends, only a reservation is made.
  pub ready-IsQuiet : (s t : Engine) → IsReady s t → IsQuiet s t
  ready-IsQuiet s t (inl (b, e)) = reserve-IsQuiet r order d cfg s e
  ready-IsQuiet s t (inr (b, e)) = subst (IsQuiet s) (sym e) (IsQuiet-refl s)
