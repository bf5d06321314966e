-- ===== src/Execution/Monitor/Tested.antt =====
-- execution/LiveOrderMonitor.ts: what the tests on an execution and its trades decide.
use mathlib.Core.List.{Memᴰ}
use cryptotradingbot.Common.{◌≡◌, refl, true, Option, none, some, List, String, arith, ap, eq_iff}
use cryptotradingbot.Portfolio.Settle.Execution.{non_empty}
use cryptotradingbot.Reconcile.Model.{AccountTrade, proven}
use cryptotradingbot.Reconcile.Correlate.{CorrelationResult}
use cryptotradingbot.Execution.Monitor.Trades.{is_id, is_proven_of}
use cryptotradingbot.Execution.Monitor.Evidence.{or_no_trades}

pub non_empty_lem : (text : Option String) (s : String) → non_empty text ≡ some s → text ≡ some s
non_empty_lem none s h = cc
non_empty_lem (some t) s h = ground (arith, h)

pub answered_trades :
    (trade : AccountTrade) (answer : Option (List AccountTrade))
    → Memᴰ trade (or_no_trades answer)
    → (trades : List AccountTrade) × (answer ≡ some trades) × Memᴰ trade trades
answered_trades trade none m = elim m [ ]
answered_trades trade (some trades) m = (trades, refl, m)

pub is_proven_of_level :
    (found : CorrelationResult) (id : String)
    → is_proven_of found id ≡ true
    → found.correlation ≡ proven
unfolding is_proven_of
is_proven_of_level found id h = ground (arith, h)

pub is_proven_of_match :
    (found : CorrelationResult) (id : String)
    → is_proven_of found id ≡ true
    → found.matched_client_order_id ≡ some id
unfolding is_proven_of
is_proven_of_match found id h = is_id_lem found.matched_client_order_id (ground (arith, h))
  where
    is_id_lem : (a : Option String) → is_id a id ≡ true → a ≡ some id
    is_id_lem none e = cc
    is_id_lem (some t) e = ap some ((eq_iff t id).0 e)
