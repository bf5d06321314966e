-- ===== src/Tests/Recoveries.antt =====
-- execution/LiveExecutionEngine.ts: an order whose submission was lost, and one that the exchange filled.
use cryptotradingbot.Common.{◌≡◌, refl, none, some, [], ◌∷◌, false, true}
use cryptotradingbot.Common.Dict.{lookup}
use cryptotradingbot.Reconcile.Model.{Order, submitted, unknown_status, filled}
use cryptotradingbot.Execution.Live.Model.{Engine, done, thrown, unresolved_exists}
use cryptotradingbot.Execution.Live.Submit.{submit, starts_with, is_live_id, is_unresolved}
use cryptotradingbot.Execution.Live.Recover.{ReadReplies, lacks_id, refresh_order, recover_order}
use cryptotradingbot.Execution.Live.Recover.Attach.{IsKeptLedger, recover_order-IsKeptLedger}
use cryptotradingbot.Execution.Live.Recover.Stale.{refresh_order_stale}
use cryptotradingbot.Tests.Gate.{in_billionths}
use cryptotradingbot.Tests.Evidence.{order}
use cryptotradingbot.Tests.Live.{live_config, accepted, idle, two_at_100}

-- A lost order, which has no exchange id.
abbrev lost : Order
lost = record order {
  client_order_id = "live-BTCCAD-u1";
  exchange_order_id = none;
  order_status = unknown_status;
}

-- NDAX's answer on the order 77, which carries no client order id.
abbrev pub filled_77 : Order
filled_77 = record order {
  client_order_id = "";
  exchange_order_id = some "77";
  order_status = filled;
}

abbrev reads : ReadReplies
reads = record {
  order_status_read = done filled_77;
  open_orders = done [];
  order_history = done (filled_77 ∷ []);
  orders_readable = true;
  recovery_saved = true;
}

abbrev after_loss : Engine
after_loss = record idle { orders = ("live-BTCCAD-u1", lost) ∷ [] }

lost_lacks : lacks_id lost.exchange_order_id ≡ true
unfolding lacks_id
lost_lacks = refl

empty-IsKeptLedger : IsKeptLedger idle.orders
unfolding lookup
empty-IsKeptLedger = record { named = λ i a p. cc; once = λ i j a b p q e. cc }

recover_order-IsKeptLedger_example : IsKeptLedger (recover_order true reads lost idle).1.orders
recover_order-IsKeptLedger_example =
    recover_order-IsKeptLedger true reads lost idle lost_lacks empty-IsKeptLedger

-- The order that was acknowledged under the id 77.
abbrev pub sent_77 : Order
sent_77 = record lost { exchange_order_id = some "77"; order_status = submitted }

abbrev pub after_sending : Engine
after_sending = record idle { orders = ("live-BTCCAD-u1", sent_77) ∷ [] }

sent_found : lookup "live-BTCCAD-u1" after_sending.orders ≡ some sent_77
unfolding lookup
sent_found = refl

pub sent_open :
    (is_live_id "live-BTCCAD-u1" ≡ true)
    × (is_unresolved submitted ≡ true)
    × (lacks_id (some "77") ≡ false)
unfolding is_live_id starts_with is_unresolved lacks_id
sent_open = (refl, refl, refl)

refresh_order_stale_example :
    let after = (refresh_order reads sent_77 after_sending).1 in
    submit in_billionths live_config accepted two_at_100 after ≡ (thrown unresolved_exists, after)
refresh_order_stale_example =
    refresh_order_stale in_billionths live_config reads accepted sent_77 filled_77 two_at_100
      after_sending sent_found (rw (sent_open.0, sent_open.1) refl) sent_open.2 refl refl refl refl
