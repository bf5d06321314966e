-- ===== src/Execution/Session/Uses.antt =====
-- execution/AutonomousLiveSession.ts: what a process does with sessions, and what a session lets through.
use cryptotradingbot.Common.{
  ℕ, ◌+◌, ◌≡◌, Bool, true, false, Option, none, some, List, [], ◌∷◌, String, str_eq, if◌then◌else◌,
}
use cryptotradingbot.Common.Int.{ℤ, pos, ◌+ℤ◌}
use cryptotradingbot.Common.Dict.{Dict}
use cryptotradingbot.Common.Result.{Result, ok, err}
use cryptotradingbot.Money
use cryptotradingbot.Money.{Money}
use cryptotradingbot.Execution.Session.{
  AutonomousLiveScope, AutonomousLiveSession, SessionState, SessionRefusal, AutonomousOrderLike,
  create_autonomous_live_session, end_autonomous_live_session, price_or_zero,
  authorize_autonomous_live_order,
}

-- What a process does with the registry after it created a session.
pub data Use : Type 0 where
  create : AutonomousLiveScope → String → Use
  finish : String → Use
  authorize : AutonomousOrderLike → AutonomousLiveSession → ℤ → Use

abbrev pub sessions_of :
    Dict SessionState → Result (AutonomousLiveSession × Dict SessionState) → Dict SessionState
sessions_of before (ok (session, after)) = after
sessions_of before (err e) = before

unfoldable pub sessions_after : Dict SessionState → Use → Dict SessionState
sessions_after sessions (create scope t) =
    sessions_of sessions (create_autonomous_live_session sessions scope t)
sessions_after sessions (finish t) = end_autonomous_live_session sessions t
sessions_after sessions (authorize order session now_ms) =
    (authorize_autonomous_live_order sessions order session now_ms).1

abbrev pub is_let_through : Option SessionRefusal → Bool
is_let_through none = true
is_let_through (some why) = false

-- Whether a use lets an order through on the token, and which.
unfoldable pub let_through : String → Dict SessionState → Use → Option AutonomousOrderLike
let_through token sessions (create scope t) = none
let_through token sessions (finish t) = none
let_through token sessions (authorize order session now_ms) =
    if str_eq session.token token
    then (if is_let_through (authorize_autonomous_live_order sessions order session now_ms).0
        then some order
        else none)
    else none

abbrev pub one_if_some : Option AutonomousOrderLike → ℕ
one_if_some none = 0
one_if_some (some order) = 1

abbrev pub notional_of : Option AutonomousOrderLike → Money
notional_of none = pos 0
notional_of (some order) = Money.mul order.quantity (price_or_zero order.price)

-- How many orders a token lets through in a run, and their notional in all.
unfoldable pub orders_through : String → Dict SessionState → List Use → ℕ
orders_through token sessions [] = 0
orders_through token sessions (u ∷ rest) =
    one_if_some (let_through token sessions u)
    + orders_through token (sessions_after sessions u) rest

unfoldable pub notional_through : String → Dict SessionState → List Use → Money
notional_through token sessions [] = pos 0
notional_through token sessions (u ∷ rest) =
    notional_of (let_through token sessions u)
    +ℤ notional_through token (sessions_after sessions u) rest

-- The token is not issued again.
abbrev pub NotIssuedBy : String → Use → Type 0
NotIssuedBy token (create scope t) = str_eq t token ≡ false
NotIssuedBy token (finish t) = Unit
NotIssuedBy token (authorize order session now_ms) = Unit

abbrev pub NotIssued : String → List Use → Type 0
NotIssued token [] = Unit
NotIssued token (u ∷ rest) = NotIssuedBy token u × NotIssued token rest
