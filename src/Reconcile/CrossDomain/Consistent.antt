-- ===== src/Reconcile/CrossDomain/Consistent.antt =====
-- reconcile/crossDomain.ts: when nothing is unresolved.
use cryptotradingbot.Common.{◌≡◌, true, false, some, String, ◌⊎◌}
use cryptotradingbot.Common.Dict.{Dict, lookup, contains, All}
use cryptotradingbot.Portfolio.Model.{Portfolio, OrderReservation, active, ManualSettlement, buy}
use cryptotradingbot.Reconcile.Model.{Order}
use cryptotradingbot.Reconcile.CrossDomain.{
  IntentState, is_given, is_accounted_status, is_terminal_order,
}

-- A reservation is of an order or of a manual intent.
abbrev pub IsOwned : Dict Order → Dict IntentState → String → OrderReservation → Type 0
IsOwned orders intents id r = (contains id orders ≡ true) ⊎ (contains id intents ≡ true)

-- A BUY on the exchange that is not at an end holds an active reservation.
abbrev pub IsReserved : Dict OrderReservation → String → Order → Type 0
IsReserved reservations id o =
    o.side ≡ buy
    → is_terminal_order o.order_status ≡ false
    → is_given o.exchange_order_id ≡ true
    → (r : OrderReservation) × (lookup id reservations ≡ some r) × (r.status ≡ active)

-- An accounted intent has a settlement.
abbrev pub IsSettled : Dict ManualSettlement → String → IntentState → Type 0
IsSettled settlements id intent =
    is_accounted_status intent.status ≡ true → contains intent.intent_id settlements ≡ true

pub record IsConsistent (orders : Dict Order) (p : Portfolio) (intents : Dict IntentState)
    (settlements : Dict ManualSettlement) : Type 0 where
  pub owned : All (IsOwned orders intents) p.order_reservations
  pub reserved : All (IsReserved p.order_reservations) orders
  pub settled : All (IsSettled settlements) intents
