-- ===== src/Tests/Controlled.antt =====
-- execution/ControlledLiveAuthorization.ts on one authorization.
use cryptotradingbot.Common.{◌≡◌, ◌≤◌, refl, some, List, [], ◌∷◌, false, true}
use cryptotradingbot.Common.Dict.{Dict, erase, lookup, insert}
use cryptotradingbot.Money
use cryptotradingbot.Execution.Authorization.{
  ControlledLiveScope, ControlledLiveAuthorization, ControlledOrderLike, controlled_kind,
  is_controlled_live_order, is_permitted, is_controlled_live_authorization, scope_matches_issued,
  is_valid_scope, is_within_notional, create_controlled_live_authorization,
}
use cryptotradingbot.Execution.Authorization.Scope.{IsInScope, is_controlled_live_order-IsInScope}
use cryptotradingbot.Execution.Authorization.SingleUse.{
  Operation, issue, present, issued_count, permitted_count, permitted_count-at_most,
}
use cryptotradingbot.Tests.Data.{units}

-- Sell at most 2 for at most 100 of quote.
abbrev sell_scope : ControlledLiveScope
sell_scope = record {
  side = "SELL";
  order_type = "limit";
  max_base_quantity = units 2;
  max_quote_notional = units 100;
}

abbrev genuine : ControlledLiveAuthorization
genuine = record { kind = controlled_kind; scope = sell_scope; token = "t1" }

abbrev issued_once : Dict ControlledLiveScope
issued_once = ("t1", sell_scope) ∷ []

abbrev small_order : ControlledOrderLike
small_order = record {
  side = "SELL";
  order_type = "limit";
  quantity = units 1;
  price = some (units 50);
}

-- It is let through once.
lets_through : is_controlled_live_order issued_once small_order (some genuine) ≡ (true, [])
unfolding is_controlled_live_order is_permitted is_controlled_live_authorization
    scope_matches_issued is_valid_scope is_within_notional lookup erase Money.mul Money.half_up
lets_through = refl

-- And refused where the side was flipped on the authorization.
flipped_refused :
    is_controlled_live_order issued_once
      (record { side = "BUY"; order_type = "limit"; quantity = units 1; price = some (units 50) })
      (some (record {
        kind = controlled_kind;
        scope = record {
          side = "BUY";
          order_type = "limit";
          max_base_quantity = units 2;
          max_quote_notional = units 100;
        };
        token = "t1";
      }))
    ≡ (false, issued_once)
unfolding is_controlled_live_order is_permitted is_controlled_live_authorization
    scope_matches_issued is_valid_scope is_within_notional lookup erase
flipped_refused = refl

is_controlled_live_order-IsInScope_example :
    let (answer, left) = is_controlled_live_order issued_once small_order (some genuine) in
    (answer ≡ true
      → (lookup "t1" issued_once ≡ some sell_scope)
        × IsInScope sell_scope small_order
        × (left ≡ erase "t1" issued_once))
    × (answer ≡ false → left ≡ issued_once)
is_controlled_live_order-IsInScope_example =
    is_controlled_live_order-IsInScope issued_once small_order genuine

-- Issued once and presented twice.
abbrev presented_twice : List Operation
presented_twice =
    issue sell_scope "t1" ∷ present small_order genuine ∷ present small_order genuine ∷ []

permitted_one : permitted_count "t1" [] presented_twice ≡ 1
unfolding permitted_count create_controlled_live_authorization is_controlled_live_order is_permitted
    is_controlled_live_authorization scope_matches_issued is_valid_scope is_within_notional lookup
    erase insert Money.mul Money.half_up
permitted_one = refl

permitted_count-at_most_example :
    permitted_count "t1" [] presented_twice ≤ issued_count "t1" presented_twice
permitted_count-at_most_example = permitted_count-at_most "t1" presented_twice
