-- ===== src/Tests/Budgets.antt =====
-- execution/AutonomousLiveSession.ts on a session of two orders and 150 of quote.
use cryptotradingbot.Common.{◌≡◌, refl, some, List, [], ◌∷◌}
use cryptotradingbot.Common.Int.{pos, ◌≤ℤ◌, ◌+ℤ◌}
use cryptotradingbot.Common.Dict.{Dict, lookup, insert}
use cryptotradingbot.Common.Result.{ok}
use cryptotradingbot.Money
use cryptotradingbot.Execution.Session.{
  AutonomousLiveScope, AutonomousLiveSession, AutonomousOrderLike, SessionState, session_kind,
  every_side, includes_side, same_sides, is_valid_session_scope, same_scope,
  create_autonomous_live_session, genuine_state, refusal_of, evaluate_autonomous_live_order,
  authorize_autonomous_live_order,
}
use cryptotradingbot.Execution.Session.Budget.{create-within_budget}
use cryptotradingbot.Execution.Session.Uses.{authorize}
use cryptotradingbot.Execution.Session.Uses.{
  Use, sessions_after, let_through, orders_through, notional_through,
}
use cryptotradingbot.Tests.Data.{units}

abbrev small_scope : AutonomousLiveScope
small_scope = record {
  order_type = "limit";
  tif = "IOC";
  sides = "BUY" ∷ "SELL" ∷ [];
  max_base_quantity = units 2;
  max_quote_notional = units 100;
  max_session_quote_notional = units 150;
  max_session_orders = pos 2;
  expires_at_ms = pos 1000;
}

abbrev session : AutonomousLiveSession
session = record { kind = session_kind; scope = small_scope; token = "s1" }

abbrev started : Dict SessionState
started = ("s1", record { scope = small_scope; orders = 0; quote_notional = pos 0 }) ∷ []

abbrev buy_for_60 : AutonomousOrderLike
buy_for_60 = record {
  side = "BUY";
  order_type = "limit";
  tif = some "IOC";
  quantity = units 1;
  price = some (units 60);
}

-- Three orders of 60 are presented.
abbrev thrice : List Use
thrice =
    authorize buy_for_60 session (pos 10)
    ∷ authorize buy_for_60 session (pos 20)
    ∷ authorize buy_for_60 session (pos 30)
    ∷ []

two_pass : orders_through "s1" started thrice ≡ 2
unfolding orders_through let_through sessions_after authorize_autonomous_live_order
    evaluate_autonomous_live_order refusal_of genuine_state same_scope is_valid_session_scope
    same_sides includes_side every_side lookup insert Money.mul Money.half_up ◌+ℤ◌
two_pass = refl

creates : create_autonomous_live_session [] small_scope "s1" ≡ ok (session, started)
unfolding create_autonomous_live_session is_valid_session_scope every_side insert
creates = refl

create-within_budget_example :
    (pos (orders_through "s1" started thrice) ≤ℤ pos 2)
    × (notional_through "s1" started thrice ≤ℤ units 150)
create-within_budget_example =
    create-within_budget [] small_scope "s1" session started thrice tt creates (tt, (tt, (tt, tt)))
