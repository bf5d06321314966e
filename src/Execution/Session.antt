-- ===== src/Execution/Session.antt =====
-- execution/AutonomousLiveSession.ts: a session that lets through orders up to a budget. The registry of
-- sessions with their usage is the state; the token that `randomUUID` gives and the time are arguments.
pub mod Uses
pub mod Budget
use cryptotradingbot.Common.{
  ℕ, ◌+◌, Bool, true, false, not, ◌&&◌, ◌||◌, Option, none, some, List, [], ◌∷◌, String, str_eq,
  if◌then◌else◌,
}
use cryptotradingbot.Common.Int.{ℤ, pos, ltb_ℤ, leb_ℤ, eqb_ℤ, ◌-ℤ◌}
use cryptotradingbot.Common.Dict.{Dict, lookup, insert, erase}
use cryptotradingbot.Common.Result.{Result, ok, err, bad_authority}
use cryptotradingbot.Money
use cryptotradingbot.Money.{Money}
use cryptotradingbot.Execution.Authorization.{is_side}

pub record AutonomousLiveScope : Type 0 where
  pub order_type : String
  pub tif : String
  pub sides : List String
  pub max_base_quantity : Money
  pub max_quote_notional : Money
  pub max_session_quote_notional : Money
  pub max_session_orders : ℤ
  pub expires_at_ms : ℤ

pub record AutonomousLiveSession : Type 0 where
  pub kind : String
  pub scope : AutonomousLiveScope
  pub token : String

pub record SessionState : Type 0 where
  pub scope : AutonomousLiveScope
  pub orders : ℕ
  pub quote_notional : Money

pub data SessionRefusal : Type 0 where
  not_genuine not_limit not_ioc side_not_permitted quantity_not_positive above_max_base :
      SessionRefusal
  price_required above_max_quote orders_exhausted notional_exhausted : SessionRefusal

unfoldable pub every_side : List String → Bool
every_side [] = true
every_side (s ∷ rest) = is_side s && every_side rest

-- `sides.includes(side)`
unfoldable pub includes_side : String → List String → Bool
includes_side side [] = false
includes_side side (s ∷ rest) = str_eq s side || includes_side side rest

-- The lengths and the elements at each index are equal.
unfoldable pub same_sides : List String → List String → Bool
same_sides [] [] = true
same_sides (a ∷ as_) (b ∷ bs) = str_eq a b && same_sides as_ bs
same_sides [] (b ∷ bs) = false
same_sides (a ∷ as_) [] = false

abbrev pub is_filled : List String → Bool
is_filled [] = false
is_filled (s ∷ rest) = true

unfoldable pub is_valid_session_scope : AutonomousLiveScope → Bool
unfolding every_side
is_valid_session_scope s =
    str_eq s.order_type "limit"
    && str_eq s.tif "IOC"
    && is_filled s.sides
    && every_side s.sides
    && Money.is_positive s.max_base_quantity
    && Money.is_positive s.max_quote_notional
    && Money.is_positive s.max_session_quote_notional
    && ltb_ℤ (pos 0) s.max_session_orders
    && ltb_ℤ (pos 0) s.expires_at_ms

unfoldable pub same_scope : AutonomousLiveScope → AutonomousLiveScope → Bool
unfolding same_sides
same_scope a b =
    str_eq a.order_type b.order_type
    && str_eq a.tif b.tif
    && same_sides a.sides b.sides
    && Money.equals a.max_base_quantity b.max_base_quantity
    && Money.equals a.max_quote_notional b.max_quote_notional
    && Money.equals a.max_session_quote_notional b.max_session_quote_notional
    && eqb_ℤ a.max_session_orders b.max_session_orders
    && eqb_ℤ a.expires_at_ms b.expires_at_ms

abbrev pub session_kind : String
session_kind = "autonomous-live-session"

unfoldable pub create_autonomous_live_session :
    Dict SessionState
    → AutonomousLiveScope
    → String
    → Result (AutonomousLiveSession × Dict SessionState)
create_autonomous_live_session sessions scope token =
    if not (is_valid_session_scope scope)
    then err bad_authority
    else ok (
      record { kind = session_kind; scope = scope; token = token },
      insert token (record { scope = scope; orders = 0; quote_notional = Money.zero }) sessions,
    )

-- The usage of the session presented, where it is genuine and has not expired.
unfoldable pub genuine_state : Option SessionState → AutonomousLiveSession → ℤ → Option SessionState
genuine_state none v now_ms = none
genuine_state (some issued) v now_ms =
    if str_eq v.kind session_kind
      && is_valid_session_scope v.scope
      && same_scope v.scope issued.scope
      && ltb_ℤ now_ms issued.scope.expires_at_ms
    then some issued
    else none

abbrev pub is_autonomous_live_session : Dict SessionState → AutonomousLiveSession → ℤ → Bool
is_autonomous_live_session sessions v now_ms =
    elim (genuine_state (lookup v.token sessions) v now_ms) [ none ↦ false | some _ ↦ true ]

unfoldable pub end_autonomous_live_session : Dict SessionState → String → Dict SessionState
end_autonomous_live_session sessions token = erase token sessions

pub record SessionUsage : Type 0 where
  pub used_orders : ℕ
  pub used_notional : Money
  pub remaining_orders : ℤ
  pub remaining_quote_notional : Money

unfoldable pub autonomous_session_usage :
    Dict SessionState → AutonomousLiveSession → Option SessionUsage
autonomous_session_usage sessions session = elim (lookup session.token sessions) [
  | none ↦ none
  | some state ↦ some (record {
    used_orders = state.orders;
    used_notional = state.quote_notional;
    remaining_orders = Money.max (pos 0) (state.scope.max_session_orders -ℤ pos state.orders);
    remaining_quote_notional =
        Money.sub state.scope.max_session_quote_notional state.quote_notional;
  })
]

pub record AutonomousOrderLike : Type 0 where
  pub side : String
  pub order_type : String
  pub tif : Option String
  pub quantity : Money
  pub price : Option Money

abbrev pub is_text : String → Option String → Bool
is_text t none = false
is_text t (some s) = str_eq s t

-- `order.price ?? Money.zero()`
abbrev pub price_or_zero : Option Money → Money
price_or_zero none = Money.zero
price_or_zero (some p) = p

-- `!order.price || !order.price.isPositive()`
abbrev pub lacks_price : Option Money → Bool
lacks_price none = true
lacks_price (some p) = not (Money.is_positive p)

-- The checks against the scope and the budget: the first that refuses.
unfoldable pub refusal_of : AutonomousOrderLike → SessionState → Option SessionRefusal
refusal_of order state =
    let scope = state.scope in
    let notional = Money.mul order.quantity (price_or_zero order.price) in
    if not (str_eq order.order_type "limit") || not (str_eq scope.order_type "limit")
    then some not_limit
    else if not (is_text "IOC" order.tif) || not (str_eq scope.tif "IOC")
    then some not_ioc
    else if not (includes_side order.side scope.sides)
    then some side_not_permitted
    else if not (Money.is_positive order.quantity)
    then some quantity_not_positive
    else if ltb_ℤ scope.max_base_quantity order.quantity
    then some above_max_base
    else if lacks_price order.price
    then some price_required
    else if ltb_ℤ scope.max_quote_notional notional
    then some above_max_quote
    else if ltb_ℤ scope.max_session_orders (pos (state.orders + 1))
    then some orders_exhausted
    else if ltb_ℤ scope.max_session_quote_notional (Money.add state.quote_notional notional)
    then some notional_exhausted
    else none

abbrev pub judged : Option SessionState → AutonomousOrderLike → Option SessionRefusal
judged none order = some not_genuine
judged (some state) order = refusal_of order state

-- `none` is `{ ok: true }`.
unfoldable pub evaluate_autonomous_live_order :
    Dict SessionState → AutonomousOrderLike → AutonomousLiveSession → ℤ → Option SessionRefusal
evaluate_autonomous_live_order sessions order session now_ms =
    judged (genuine_state (lookup session.token sessions) session now_ms) order

abbrev pub used : SessionState → AutonomousOrderLike → SessionState
used state order = record state {
  orders = state.orders + 1;
  quote_notional =
      Money.add state.quote_notional (Money.mul order.quantity (price_or_zero order.price));
}

-- The registry where the checks pass: the usage of `sessions.get(token)!` grows.
abbrev pub charged :
    Dict SessionState → String → AutonomousOrderLike → Option SessionState → Dict SessionState
charged sessions token order none = sessions
charged sessions token order (some state) = insert token (used state order) sessions

unfoldable pub authorize_autonomous_live_order :
    Dict SessionState
    → AutonomousOrderLike
    → AutonomousLiveSession
    → ℤ
    → Option SessionRefusal × Dict SessionState
authorize_autonomous_live_order sessions order session now_ms =
    elim (evaluate_autonomous_live_order sessions order session now_ms) [
      | some why ↦ (some why, sessions)
      | none ↦ (none, charged sessions session.token order (lookup session.token sessions))
    ]
