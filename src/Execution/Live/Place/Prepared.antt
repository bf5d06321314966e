-- ===== src/Execution/Live/Place/Prepared.antt =====
-- execution/LiveExecutionEngine.ts: an order that is prepared and still approved is submitted.
use cryptotradingbot.Common.{
  ◌≡◌, refl, sym, ◌∙◌, true, not, ◌&&◌, some, String, str_eq, eq_iff, arith,
}
use cryptotradingbot.Common.Int.{ℤ, eqb_ℤ}
use cryptotradingbot.Common.Result.{Result, ok, err}
use cryptotradingbot.Portfolio.Model.{Side, buy, sell, same_side}
use cryptotradingbot.Reconcile.Model.{limit_order}
use cryptotradingbot.Risk.Doubles.{Doubles}
use cryptotradingbot.Risk.Model.{RiskConfig, RiskContext, RiskApproval}
use cryptotradingbot.Risk.State.{RiskState}
use cryptotradingbot.Risk.Manager.{RiskDecision, approved, rejected, evaluate}
use cryptotradingbot.Execution.Live.Model.{
  NewOrder, LiveConfig, Replies, Engine, done, >>=-eq-done, throw_if-done, not_limit, not_ioc,
}
use cryptotradingbot.Execution.Live.Validate.{is_limit, is_ioc, is_given_session, positive_price}
use cryptotradingbot.Execution.Live.Submit.{submit}
use cryptotradingbot.Execution.Live.Place.{
  Capabilities, LiveOrderIntent, PreparedLiveOrder, is_limit_kind, tif_or, has_price, assert_gate,
  order_from_approval, same_transaction, prepared_matches_approval, prepare_decided, prepare,
  place_prepared_decided, place_prepared,
}

module _ {F : Type 0} (d : Doubles F) (cfg : LiveConfig F) (risk : RiskConfig F) (rs : RiskState)
    (ctx : RiskContext F) where
  order_from_approval-fields :
      (a : RiskApproval F) (intent : LiveOrderIntent) (uuid : String) (order : NewOrder)
      → order_from_approval cfg ctx.symbol a intent uuid ≡ done order
      → (order.symbol ≡ ctx.symbol)
        × (order.side ≡ a.side)
        × (order.order_type ≡ limit_order)
        × (order.quantity ≡ a.quantity)
  unfolding order_from_approval
  order_from_approval-fields a intent uuid order h0 =
      let in_session = is_given_session cfg.autonomous_live_session in
      let (_, h1) = throw_if-done (not (is_limit_kind intent.order_type)) not_limit _ h0 in
      let (price, p, h2) = >>=-eq-done (positive_price intent.price) _ h1 in
      let (_, h3) =
        throw_if-done (in_session && not (is_ioc (tif_or intent.tif in_session))) not_ioc _ h2 in
      (ground (arith, h3), ground (arith, h3), ground (arith, h3), ground (arith, h3))

  prepare_decided-fields :
      (decision : Result (RiskDecision F)) (intent : LiveOrderIntent) (uuid : String)
      (p : PreparedLiveOrder F)
      → prepare_decided d cfg risk rs decision ctx intent uuid ≡ done p
      → (p.order.symbol ≡ ctx.symbol)
        × (p.order.side ≡ p.approval.side)
        × (p.order.order_type ≡ limit_order)
        × (p.order.quantity ≡ p.approval.quantity)
  unfolding prepare_decided
  prepare_decided-fields (err e) intent uuid p h = cc
  prepare_decided-fields (ok (rejected why)) intent uuid p h = cc
  prepare_decided-fields (ok (approved a)) intent uuid p h =
      let (order, h1, h2) = >>=-eq-done (order_from_approval cfg ctx.symbol a intent uuid) _ h in
      let (symbol, side, kind, quantity) = order_from_approval-fields a intent uuid order h1 in
      ground (arith, h2, symbol, side, kind, quantity)

same_side_sym : (a b : Side) → same_side a b ≡ true → same_side b a ≡ true
same_side_sym buy buy h = refl
same_side_sym sell sell h = refl
same_side_sym buy sell h = cc
same_side_sym sell buy h = cc

eqb_ℤ_sym : (a b : ℤ) → eqb_ℤ a b ≡ true → eqb_ℤ b a ≡ true
eqb_ℤ_sym a b h = ground (arith, h)

module _ {F : Type 0} (d : Doubles F) (cfg : LiveConfig F) (risk : RiskConfig F)
    (rs : RiskState) where
  still_matches :
      (ctx : RiskContext F) (intent : LiveOrderIntent) (uuid : String) (p : PreparedLiveOrder F)
      (a : RiskApproval F)
      → prepare_decided d cfg risk rs (evaluate d risk rs ctx) ctx intent uuid ≡ done p
      → p.approval.symbol ≡ ctx.symbol
      → p.order.price ≡ some p.approval.price
      → same_transaction a p.approval ≡ true
      → prepared_matches_approval p.order a ≡ true
  unfolding same_transaction prepared_matches_approval
  still_matches ctx intent uuid p a h named priced same =
      let (symbol, side, kind, quantity) =
        prepare_decided-fields d cfg risk rs ctx (evaluate d risk rs ctx) intent uuid p h in
      let same_symbol : str_eq a.symbol p.approval.symbol ≡ true = ground (arith, same) in
      let same_sides : same_side a.side p.approval.side ≡ true = ground (arith, same) in
      let same_quantity : eqb_ℤ a.quantity p.approval.quantity ≡ true = ground (arith, same) in
      let same_price : eqb_ℤ a.price p.approval.price ≡ true = ground (arith, same) in
      let s1 : str_eq p.order.symbol a.symbol ≡ true =
        (eq_iff _ _).1
          (symbol ∙ sym named ∙ sym ((eq_iff a.symbol p.approval.symbol).0 same_symbol)) in
      let s2 : same_side p.order.side a.side ≡ true =
        rw side (same_side_sym a.side p.approval.side same_sides) in
      let s3 : is_limit p.order.order_type ≡ true = rw kind refl in
      let s4 : has_price p.order.price a.price ≡ true =
        rw priced (eqb_ℤ_sym a.price p.approval.price same_price) in
      let s5 : eqb_ℤ p.order.quantity a.quantity ≡ true =
        rw quantity (eqb_ℤ_sym a.quantity p.approval.quantity same_quantity) in
      ground (arith, s1, s2, s3, s4, s5)

  -- An order that was prepared at the approved price, on the symbol of its context, is the very order that
  -- placePrepared submits, where the gate is open and the risk manager, in the state and the context of that
  -- time, approves the same symbol, side, quantity and price.
  pub placed_as_prepared :
      (c c' : Capabilities) (ctx ctx' : RiskContext F) (intent : LiveOrderIntent)
      (uuid uuid' : String) (p : PreparedLiveOrder F) (a : RiskApproval F) (rs' : RiskState)
      (r : Replies F) (s : Engine)
      → prepare d cfg risk rs c ctx intent uuid ≡ done p
      → p.approval.symbol ≡ ctx.symbol
      → p.order.price ≡ some p.approval.price
      → assert_gate cfg c' ≡ done tt
      → evaluate d risk rs' ctx' ≡ ok (approved a)
      → same_transaction a p.approval ≡ true
      → place_prepared d cfg risk rs' c' r ctx' p uuid' s ≡ submit d cfg r p.order s
  unfolding prepare place_prepared place_prepared_decided
  placed_as_prepared c c' ctx ctx' intent uuid uuid' p a rs' r s h named priced gate later same =
      let (_, _, h1) = >>=-eq-done (assert_gate cfg c) _ h in
      rw
        (
          place_prepared,
          gate,
          later,
          place_prepared_decided,
          same,
          still_matches ctx intent uuid p a h1 named priced same,
        )
        refl
