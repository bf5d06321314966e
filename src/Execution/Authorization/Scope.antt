-- ===== src/Execution/Authorization/Scope.antt =====
-- execution/ControlledLiveAuthorization.ts: an order that is let through is within an issued scope.
use cryptotradingbot.Common.{
  ◌≡◌, refl, true, false, Option, none, some, str_eq, eq_iff, arith, Bool-cases, inl, inr,
}
use cryptotradingbot.Common.Int.{pos, ◌<ℤ◌, ◌≤ℤ◌, eqb_ℤ-eq}
use cryptotradingbot.Common.Dict.{Dict, lookup, erase}
use cryptotradingbot.Money
use cryptotradingbot.Money.{Money}
use cryptotradingbot.Execution.Authorization.{
  ControlledLiveScope, ControlledLiveAuthorization, ControlledOrderLike, scope_matches_issued,
  is_controlled_live_authorization, is_within_notional, is_permitted, is_controlled_live_order,
}

-- An order within a scope.
pub record IsInScope (scope : ControlledLiveScope) (order : ControlledOrderLike) : Type 0 where
  pub limit_only : order.order_type ≡ "limit"
  pub same_side : order.side ≡ scope.side
  pub positive : pos 0 <ℤ order.quantity
  pub capped : order.quantity ≤ℤ scope.max_base_quantity
  pub at : Money
  pub priced : order.price ≡ some at
  pub price_positive : pos 0 <ℤ at
  pub notional_capped : Money.mul order.quantity at ≤ℤ scope.max_quote_notional

scope_matches_issued-eq :
    (scope : ControlledLiveScope) (o : Option ControlledLiveScope)
    → scope_matches_issued scope o ≡ true
    → o ≡ some scope
unfolding scope_matches_issued
scope_matches_issued-eq scope none h = cc
scope_matches_issued-eq scope (some i) h = ground (
  arith,
  h,
  eq_iff scope.side i.side,
  eq_iff scope.order_type i.order_type,
  eqb_ℤ-eq scope.max_base_quantity i.max_base_quantity,
  eqb_ℤ-eq scope.max_quote_notional i.max_quote_notional,
)

is_within_notional-priced :
    (q : Money) (price : Option Money) (cap : Money)
    → is_within_notional q price cap ≡ true
    → (at : Money) × (price ≡ some at) × (pos 0 <ℤ at) × (Money.mul q at ≤ℤ cap)
unfolding is_within_notional
is_within_notional-priced q none cap h = cc
is_within_notional-priced q (some p) cap h = (p, refl, ground (arith, h), ground (arith, h))

pub is_permitted-IsInScope :
    (issued : Dict ControlledLiveScope) (order : ControlledOrderLike)
    (auth : ControlledLiveAuthorization)
    → is_permitted issued order auth ≡ true
    → (lookup auth.token issued ≡ some auth.scope) × IsInScope auth.scope order
unfolding is_permitted is_controlled_live_authorization
is_permitted-IsInScope issued order auth h =
    let m : scope_matches_issued auth.scope (lookup auth.token issued) ≡ true = ground (arith, h) in
    let w : is_within_notional order.quantity order.price auth.scope.max_quote_notional ≡ true =
      ground (arith, h) in
    let t : str_eq order.order_type "limit" ≡ true = ground (arith, h) in
    let s : str_eq order.side auth.scope.side ≡ true = ground (arith, h) in
    let (at, e, p, n) =
      is_within_notional-priced order.quantity order.price auth.scope.max_quote_notional w in
    (
      scope_matches_issued-eq auth.scope (lookup auth.token issued) m,
      record {
        limit_only = (eq_iff order.order_type "limit").0 t;
        same_side = (eq_iff order.side auth.scope.side).0 s;
        positive = ground (arith, h);
        capped = ground (arith, h);
        at = at;
        priced = e;
        price_positive = p;
        notional_capped = n;
      },
    )

-- An order that `isControlledLiveOrder` lets through is a LIMIT order on the side, within the quantity
-- and at a positive price within the notional of the scope that this process issued for the token
-- presented, and the token leaves the registry; an order that it refuses changes nothing.
pub is_controlled_live_order-IsInScope :
    (issued : Dict ControlledLiveScope) (order : ControlledOrderLike)
    (auth : ControlledLiveAuthorization)
    → let (answer, left) = is_controlled_live_order issued order (some auth) in
      (answer ≡ true
        → (lookup auth.token issued ≡ some auth.scope)
          × IsInScope auth.scope order
          × (left ≡ erase auth.token issued))
      × (answer ≡ false → left ≡ issued)
unfolding is_controlled_live_order
is_controlled_live_order-IsInScope issued order auth =
    elim (Bool-cases (is_permitted issued order auth)) [
      | inl e ↦
          rw e (
            λ _. (let (l, s) = is_permitted-IsInScope issued order auth e in (l, s, refl)),
            λ f. cc,
          )
      | inr e ↦ rw e (λ t. cc, λ _. refl)
    ]
