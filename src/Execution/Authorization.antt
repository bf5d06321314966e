-- ===== src/Execution/Authorization.antt =====
-- execution/ControlledLiveAuthorization.ts: an authorization that this process issued and that lets one
-- order through. The registry of issued scopes is the state; `randomUUID` gives the token, an argument.
pub mod Scope
pub mod SingleUse
use cryptotradingbot.Common.{
  ℕ, ◌+◌, ◌≡◌, refl, Bool, true, false, not, ◌&&◌, ◌||◌, Option, none, some, List, [], ◌∷◌, String,
  str_eq, if◌then◌else◌,
}
use cryptotradingbot.Common.Int.{ltb_ℤ}
use cryptotradingbot.Common.Dict.{Dict, lookup, insert, erase, contains}
use cryptotradingbot.Common.Result.{
  Result, ok, err, ◌>>=◌, ◌>>◌, throw_if, bad_authority, bad_quantity,
}
use cryptotradingbot.Money
use cryptotradingbot.Money.{Money}

pub record ControlledLiveScope : Type 0 where
  pub side : String
  pub order_type : String
  pub max_base_quantity : Money
  pub max_quote_notional : Money

-- What is presented as an authorization; a value of another shape is `none` where it is tested.
pub record ControlledLiveAuthorization : Type 0 where
  pub kind : String
  pub scope : ControlledLiveScope
  pub token : String

abbrev pub is_side : String → Bool
is_side side = str_eq side "SELL" || str_eq side "BUY"

unfoldable pub is_valid_scope : ControlledLiveScope → Bool
is_valid_scope s =
    is_side s.side
    && str_eq s.order_type "limit"
    && Money.is_positive s.max_base_quantity
    && Money.is_positive s.max_quote_notional

unfoldable pub scope_matches_issued : ControlledLiveScope → Option ControlledLiveScope → Bool
scope_matches_issued scope none = false
scope_matches_issued scope (some issued) =
    is_valid_scope scope
    && str_eq scope.side issued.side
    && str_eq scope.order_type issued.order_type
    && Money.equals scope.max_base_quantity issued.max_base_quantity
    && Money.equals scope.max_quote_notional issued.max_quote_notional

abbrev pub controlled_kind : String
controlled_kind = "controlled-live-test"

unfoldable pub create_controlled_live_authorization :
    Dict ControlledLiveScope
    → ControlledLiveScope
    → String
    → Result (ControlledLiveAuthorization × Dict ControlledLiveScope)
create_controlled_live_authorization issued_scopes scope token = do
  throw_if (not (is_side scope.side)) bad_authority
  throw_if (not (str_eq scope.order_type "limit")) bad_authority
  throw_if (not (Money.is_positive scope.max_base_quantity)) bad_quantity
  throw_if (not (Money.is_positive scope.max_quote_notional)) bad_quantity
  ok (
    record { kind = controlled_kind; scope = scope; token = token },
    insert token scope issued_scopes,
  )

unfoldable pub is_controlled_live_authorization :
    Dict ControlledLiveScope → ControlledLiveAuthorization → Bool
is_controlled_live_authorization issued_scopes v =
    str_eq v.kind controlled_kind && scope_matches_issued v.scope (lookup v.token issued_scopes)

pub record ControlledOrderLike : Type 0 where
  pub side : String
  pub order_type : String
  pub quantity : Money
  pub price : Option Money

-- A positive price, at which the notional is within the cap.
unfoldable pub is_within_notional : Money → Option Money → Money → Bool
is_within_notional quantity none max_quote_notional = false
is_within_notional quantity (some price) max_quote_notional =
    Money.is_positive price && not (ltb_ℤ max_quote_notional (Money.mul quantity price))

-- The conditions before the token is consumed.
unfoldable pub is_permitted :
    Dict ControlledLiveScope → ControlledOrderLike → ControlledLiveAuthorization → Bool
is_permitted issued_scopes order auth =
    is_controlled_live_authorization issued_scopes auth
    && str_eq order.order_type "limit"
    && str_eq auth.scope.order_type "limit"
    && str_eq order.side auth.scope.side
    && Money.is_positive order.quantity
    && not (ltb_ℤ auth.scope.max_base_quantity order.quantity)
    && is_within_notional order.quantity order.price auth.scope.max_quote_notional

-- `isControlledLiveOrder`: the answer, and the registry without the token where it is yes.
unfoldable pub is_controlled_live_order :
    Dict ControlledLiveScope
    → ControlledOrderLike
    → Option ControlledLiveAuthorization
    → Bool × Dict ControlledLiveScope
is_controlled_live_order issued_scopes order none = (false, issued_scopes)
is_controlled_live_order issued_scopes order (some auth) =
    if is_permitted issued_scopes order auth
    then (true, erase auth.token issued_scopes)
    else (false, issued_scopes)
