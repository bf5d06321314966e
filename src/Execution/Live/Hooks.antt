-- ===== src/Execution/Live/Hooks.antt =====
-- execution/liveHooks.ts: the guard on the managed state and the reservation of quote that the engine
-- calls under its lock.
use cryptotradingbot.Common.{Bool, true, false, Option, none, some, ◌∷◌, String, if◌then◌else◌}
use cryptotradingbot.Common.Int.{ltb_ℤ}
use cryptotradingbot.Common.Result.{Result, ok, err, ◌>>=◌}
use cryptotradingbot.Money
use cryptotradingbot.Money.{Money}
use cryptotradingbot.Portfolio.Model.{Portfolio, Position, buy, sell}
use cryptotradingbot.Portfolio.Ids.{quote_of}
use cryptotradingbot.Portfolio.Equity.{position}
use cryptotradingbot.Portfolio.Reserve.{reserve_order, release_order_reservation}
use cryptotradingbot.Risk.Doubles.{Doubles}
use cryptotradingbot.Execution.Live.Model.{
  NewOrder, LiveConfig, ManagedFile, loaded, corrupt, missing, unusable, Replies, Engine,
  reserved_quote, released_quote,
}
use cryptotradingbot.Execution.Live.Validate.{estimate_quote_fee, taker_of}

-- `?.quantity ?? Money.zero()`
abbrev pub held_quantity : Option Position → Money
held_quantity none = Money.zero
held_quantity (some p) = p.quantity

-- The function that `buildManagedOrderGuard` returns: whether it gives a reason to refuse.
unfoldable pub managed_order_guard : ManagedFile → Portfolio → NewOrder → Bool
managed_order_guard corrupt managed order = true
managed_order_guard missing managed order = true
managed_order_guard unusable managed order = true
managed_order_guard loaded managed order = elim order.side [
  | buy ↦ false
  | sell ↦ ltb_ℤ (held_quantity (position managed order.symbol)) order.quantity
]

abbrev pub price_or_zero : Option Money → Money
price_or_zero none = Money.zero
price_or_zero (some p) = p

-- `symbol.split('/')[1] ?? ''`
abbrev pub quote_or_empty : String → String
quote_or_empty symbol = elim (quote_of symbol) [ none ↦ "" | some quote ↦ quote ]

module _ {F : Type 0} (d : Doubles F) where
  -- The limit notional and a taker fee on it.
  unfoldable pub reserved_cost : LiveConfig F → NewOrder → Result Money
  reserved_cost cfg order = do
    let notional = Money.mul order.quantity (price_or_zero order.price)
    fee ← estimate_quote_fee d notional (taker_of cfg.hook_fees)
    ok (Money.add notional fee)

  -- `portfolio.reserveOrder(order.clientOrderId, quote, cost)`
  unfoldable pub reserved_portfolio : LiveConfig F → NewOrder → Portfolio → Result Portfolio
  reserved_portfolio cfg order managed = do
    cost ← reserved_cost cfg order
    reserve_order managed order.client_order_id (quote_or_empty order.symbol) cost

  -- Where the reservation is made, it is written, or refused with the write.
  abbrev pub written : Bool → NewOrder → Engine → Result Portfolio → Option Engine
  written is_saved order s (err e) = none
  written is_saved order s (ok next) =
      if is_saved
      then some (record s { managed = next; events = reserved_quote order ∷ s.events })
      else none

  -- `reserve`: the state with the reservation written, or `none` where a reason to refuse is given.
  unfoldable pub reserve : LiveConfig F → Replies F → NewOrder → Engine → Option Engine
  reserve cfg r order s = elim r.managed_file [
    | corrupt ↦ none
    | missing ↦ none
    | unusable ↦ none
    | loaded ↦ written r.reserve_saved order s (reserved_portfolio cfg order s.managed)
  ]

-- `release`, which changes nothing where the state does not load or is not written.
unfoldable pub release : {F : Type 0} → Replies F → NewOrder → Engine → Engine
release r order s = elim r.managed_file [
  | corrupt ↦ s
  | missing ↦ s
  | unusable ↦ s
  | loaded ↦
      if r.release_saved
      then record s {
        managed = release_order_reservation s.managed order.client_order_id;
        events = released_quote order ∷ s.events;
      }
      else s
]
