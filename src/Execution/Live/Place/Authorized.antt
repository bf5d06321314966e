-- ===== src/Execution/Live/Place/Authorized.antt =====
-- execution/LiveExecutionEngine.ts: what may reach the exchange by `place` and by `placePrepared`.
use cryptotradingbot.Common.{
  ◌≡◌, ◌⊎◌, inl, inr, refl, ap, ◌∙◌, true, not, ◌&&◌, ◌||◌, Option, none, some, ◌∷◌, String, str_eq,
  eq_iff, arith, if_cases,
}
use cryptotradingbot.Common.Int.{eqb_ℤ-eq}
use cryptotradingbot.Common.Result.{Result, ok, err}
use cryptotradingbot.Money
use cryptotradingbot.Money.{Money}
use cryptotradingbot.Portfolio.Model.{Side, buy, sell, same_side}
use cryptotradingbot.Risk.Doubles.{Doubles}
use cryptotradingbot.Risk.Model.{RiskConfig, RiskContext, RiskApproval}
use cryptotradingbot.Risk.State.{RiskState}
use cryptotradingbot.Risk.Manager.{RiskDecision, approved, rejected, evaluate}
use cryptotradingbot.Execution.Live.Model.{
  NewOrder, LiveConfig, Replies, Engine, LiveOrderResult, Attempt, Attempt-cases, done, thrown,
  >>=-eq-done, throw_if-done, ledger_corrupt, unresolved_exists, not_limit, not_ioc, saved,
}
use cryptotradingbot.Execution.Live.Validate.{positive_price, is_given_session, is_ioc}
use cryptotradingbot.Execution.Live.Validate.Submittable.{
  IsSubmittable, validate_order-IsSubmittable, positive_price-some,
}
use cryptotradingbot.Execution.Live.Submit.{check_submission, has_unresolved, submit}
use cryptotradingbot.Execution.Live.Submit.Shape.{Ending-IsEnded, ready-IsQuiet, submit_cases}
use cryptotradingbot.Execution.Live.Submit.Quiet.{sent_orders}
use cryptotradingbot.Execution.Live.Place.{
  Capabilities, LiveOrderIntent, PreparedLiveOrder, assert_gate, is_limit_kind, tif_or,
  order_from_approval, has_price, same_transaction, prepared_matches_approval, submit_built,
  place_decided, place, place_prepared_decided, place_prepared,
}

module _ {F : Type 0} (d : Doubles F) (cfg : LiveConfig F) (r : Replies F) where
  checked-IsSubmittable :
      (order : NewOrder) (s : Engine)
      → check_submission d cfg r order s ≡ done tt
      → IsSubmittable d cfg r order
  unfolding check_submission
  checked-IsSubmittable order s h =
      let (_, h1) = throw_if-done (not r.ledger_readable) ledger_corrupt _ h in
      let (_, h2) = throw_if-done (has_unresolved s.orders) unresolved_exists _ h1 in
      validate_order-IsSubmittable d cfg r order h2

  -- A submission sends its order, once it is checked, or nothing.
  submit_sends :
      (order : NewOrder) (s : Engine)
      → let after = (submit d cfg r order s).1 in
        (sent_orders after.events ≡ sent_orders s.events)
        ⊎ ((sent_orders after.events ≡ order ∷ sent_orders s.events) × IsSubmittable d cfg r order)
  unfolding saved sent_orders
  submit_sends order s = elim (submit_cases d cfg r order s) [
    | inl q ↦ inl q.same_sent
    | inr x ↦
        let q = ready-IsQuiet d cfg r order s x.ready x.prepared in
        let e = Ending-IsEnded cfg r order _ _ x.ending in
        inr (e.sent_same ∙ ap (λ l. order ∷ l) q.same_sent, checked-IsSubmittable order s x.checked)
  ]

module _ {F : Type 0} (d : Doubles F) (cfg : LiveConfig F) (risk : RiskConfig F) (rs : RiskState)
    (c : Capabilities) (r : Replies F) (ctx : RiskContext F) where
  -- The gate is open, the risk manager approves the order's side and quantity in this context, and the
  -- order passed the checks of a submission.
  pub record IsAuthorized (order : NewOrder) : Type 0 where
    pub gate : assert_gate cfg c ≡ done tt
    pub approval : RiskApproval F
    pub approves : evaluate d risk rs ctx ≡ ok (approved approval)
    pub approved_side : order.side ≡ approval.side
    pub approved_quantity : order.quantity ≡ approval.quantity
    pub submittable : IsSubmittable d cfg r order

  same_side-eq : (a b : Side) → same_side a b ≡ true → a ≡ b
  same_side-eq buy buy h = refl
  same_side-eq buy sell h = cc
  same_side-eq sell buy h = cc
  same_side-eq sell sell h = refl

  has_price-some : (o : Option Money) (price : Money) → has_price o price ≡ true → o ≡ some price
  has_price-some none price h = cc
  has_price-some (some p) price h = ap some (eqb_ℤ-eq p price h)

  -- A prepared order that matches an approval is the transaction approved.
  matches-IsAuthorized :
      (order : NewOrder) (a : RiskApproval F)
      → assert_gate cfg c ≡ done tt
      → evaluate d risk rs ctx ≡ ok (approved a)
      → prepared_matches_approval order a ≡ true
      → IsSubmittable d cfg r order
      → (x : IsAuthorized order) × (order.symbol ≡ x.approval.symbol)
        × (order.price ≡ some x.approval.price)
  unfolding prepared_matches_approval
  matches-IsAuthorized order a gate approves m submittable =
      let side : same_side order.side a.side ≡ true = ground (arith, m) in
      let quantity : Money.equals order.quantity a.quantity ≡ true = ground (arith, m) in
      let symbol : str_eq order.symbol a.symbol ≡ true = ground (arith, m) in
      let price : has_price order.price a.price ≡ true = ground (arith, m) in
      (
        record {
          gate = gate;
          approval = a;
          approves = approves;
          approved_side = same_side-eq order.side a.side side;
          approved_quantity = eqb_ℤ-eq order.quantity a.quantity quantity;
          submittable = submittable;
        },
        (eq_iff order.symbol a.symbol).0 symbol,
        has_price-some order.price a.price price,
      )

  abbrev SentPrepared : PreparedLiveOrder F → Engine → Attempt LiveOrderResult × Engine → Type 0
  SentPrepared p s after =
      (sent_orders after.1.events ≡ sent_orders s.events)
      ⊎ ((sent_orders after.1.events ≡ p.order ∷ sent_orders s.events)
          × (x : IsAuthorized p.order) × (p.order.symbol ≡ x.approval.symbol)
          × (p.order.price ≡ some x.approval.price))

  decided-SentPrepared :
      (decision : Result (RiskDecision F)) (p : PreparedLiveOrder F) (uuid : String) (s : Engine)
      → assert_gate cfg c ≡ done tt
      → evaluate d risk rs ctx ≡ decision
      → SentPrepared p s (place_prepared_decided d cfg risk rs decision r ctx p uuid s)
  unfolding place_prepared_decided
  decided-SentPrepared (err e) p uuid s gate h = inl refl
  decided-SentPrepared (ok (rejected why)) p uuid s gate h = inl refl
  decided-SentPrepared (ok (approved a)) p uuid s gate h =
      if_cases (SentPrepared p s)
        (not (same_transaction a p.approval) || not (prepared_matches_approval p.order a)) _ _
        (λ _. inl refl)
        (λ n. elim (submit_sends d cfg r p.order s) [
          | inl e ↦ inl e
          | inr (e, v) ↦
              let (x, symbol, price) =
                matches-IsAuthorized p.order a gate h (ground (arith, n)) v in
              inr (e, x, symbol, price)
        ])

  -- What `placePrepared` sends is the very order that was prepared, where the risk manager approves its
  -- symbol, side, quantity and price at that time; or it sends nothing.
  pub place_prepared-IsAuthorized :
      (p : PreparedLiveOrder F) (uuid : String) (s : Engine)
      → let after = (place_prepared d cfg risk rs c r ctx p uuid s).1 in
        (sent_orders after.events ≡ sent_orders s.events)
        ⊎ ((sent_orders after.events ≡ p.order ∷ sent_orders s.events)
            × (x : IsAuthorized p.order) × (p.order.symbol ≡ x.approval.symbol)
            × (p.order.price ≡ some x.approval.price))
  unfolding place_prepared
  place_prepared-IsAuthorized p uuid s = elim (Attempt-cases (assert_gate cfg c)) [
    | inl (e, g) ↦ rw (g, place_prepared) (inl refl)
    | inr (t, g) ↦
        rw (g, place_prepared) (decided-SentPrepared (evaluate d risk rs ctx) p uuid s g refl)
  ]

  -- An order built from an approval has its side and quantity, and the intent's price.
  record IsBuilt (a : RiskApproval F) (intent : LiveOrderIntent) (order : NewOrder) : Type 0 where
    side : order.side ≡ a.side
    quantity : order.quantity ≡ a.quantity
    symbol : order.symbol ≡ ctx.symbol
    price : order.price ≡ intent.price

  order_from_approval-IsBuilt :
      (a : RiskApproval F) (intent : LiveOrderIntent) (uuid : String) {order : NewOrder}
      → order_from_approval cfg ctx.symbol a intent uuid ≡ done order
      → IsBuilt a intent order
  unfolding order_from_approval
  order_from_approval-IsBuilt a intent uuid {order} h0 =
      let in_session = is_given_session cfg.autonomous_live_session in
      let (_, h1) = throw_if-done (not (is_limit_kind intent.order_type)) not_limit _ h0 in
      let (price, p, h2) = >>=-eq-done (positive_price intent.price) _ h1 in
      let (_, h3) =
        throw_if-done (in_session && not (is_ioc (tif_or intent.tif in_session))) not_ioc _ h2 in
      let (priced, _) = positive_price-some intent.price p in
      record {
        side = ground (arith, h3);
        quantity = ground (arith, h3);
        symbol = ground (arith, h3);
        price = ground (arith, h3, priced);
      }

  abbrev SentApproved : LiveOrderIntent → Engine → Attempt LiveOrderResult × Engine → Type 0
  SentApproved intent s after =
      (sent_orders after.1.events ≡ sent_orders s.events)
      ⊎ ((order : NewOrder) × (sent_orders after.1.events ≡ order ∷ sent_orders s.events)
          × IsAuthorized order
          × (order.symbol ≡ ctx.symbol)
          × (order.price ≡ intent.price))

  built-SentApproved :
      (a : RiskApproval F) (intent : LiveOrderIntent) (uuid : String) (s : Engine)
      (built : Attempt NewOrder)
      → assert_gate cfg c ≡ done tt
      → evaluate d risk rs ctx ≡ ok (approved a)
      → order_from_approval cfg ctx.symbol a intent uuid ≡ built
      → SentApproved intent s (submit_built d cfg risk rs r built s)
  unfolding submit_built
  built-SentApproved a intent uuid s (thrown e) gate h b = inl refl
  built-SentApproved a intent uuid s (done order) gate h b = elim (submit_sends d cfg r order s) [
    | inl e ↦ inl e
    | inr (e, v) ↦
        let i = order_from_approval-IsBuilt a intent uuid b in
        inr (
          order,
          e,
          record {
            gate = gate;
            approval = a;
            approves = h;
            approved_side = i.side;
            approved_quantity = i.quantity;
            submittable = v;
          },
          i.symbol,
          i.price,
        )
  ]

  decided-SentApproved :
      (decision : Result (RiskDecision F)) (intent : LiveOrderIntent) (uuid : String) (s : Engine)
      → assert_gate cfg c ≡ done tt
      → evaluate d risk rs ctx ≡ decision
      → SentApproved intent s (place_decided d cfg risk rs decision r ctx intent uuid s)
  unfolding place_decided
  decided-SentApproved (err e) intent uuid s gate h = inl refl
  decided-SentApproved (ok (rejected why)) intent uuid s gate h = inl refl
  decided-SentApproved (ok (approved a)) intent uuid s gate h =
      built-SentApproved a intent uuid s _ gate h refl

  -- What `place` sends is one order whose side and quantity the risk manager approves in the context
  -- given, for the context's symbol and at the intent's price, which passed the submission's checks; or it
  -- sends nothing.
  pub place-IsAuthorized :
      (intent : LiveOrderIntent) (uuid : String) (s : Engine)
      → let after = (place d cfg risk rs c r ctx intent uuid s).1 in
        (sent_orders after.events ≡ sent_orders s.events)
        ⊎ ((order : NewOrder) × (sent_orders after.events ≡ order ∷ sent_orders s.events)
            × IsAuthorized order
            × (order.symbol ≡ ctx.symbol)
            × (order.price ≡ intent.price))
  unfolding place
  place-IsAuthorized intent uuid s = elim (Attempt-cases (assert_gate cfg c)) [
    | inl (e, g) ↦ rw (g, place) (inl refl)
    | inr (t, g) ↦
        rw (g, place) (decided-SentApproved (evaluate d risk rs ctx) intent uuid s g refl)
  ]
