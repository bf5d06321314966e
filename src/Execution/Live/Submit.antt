-- ===== src/Execution/Live/Submit.antt =====
-- execution/LiveExecutionEngine.ts: `submit`, the critical section under the mutation lock, which makes
-- one submission follow another.
pub mod Quiet
pub mod Shape
pub mod InFlight
pub mod SendOnce
pub mod Outcome
use Prim.Native.Char.{code}
use cryptotradingbot.Common.{
  ℕ, Bool, true, false, not, ◌&&◌, ◌||◌, Option, none, some, List, [], ◌∷◌, String, str_eq, ◌==◌,
  if◌then◌else◌,
}
use cryptotradingbot.Common.Dict.{Dict, contains}
use cryptotradingbot.Portfolio.Model.{Side, buy, sell}
use cryptotradingbot.Reconcile.Model.{
  Order, OrderStatus, created, submitted, open_order, partially_filled, filled, canceled,
  order_rejected, expired, unknown_status, abandoned,
}
use cryptotradingbot.Risk.Doubles.{Doubles}
use cryptotradingbot.Execution.Live.Model
use cryptotradingbot.Execution.Live.Model.{
  NewOrder, LiveConfig, Replies, Engine, LiveOrderResult, LiveError, Attempt, done, thrown, ◌>>=◌,
  ◌>>◌, throw_if, PlaceOrderResult, ledger_corrupt, unresolved_exists, save_failed, build_recorded,
  saved, sent,
}
use cryptotradingbot.Execution.Live.Validate.{validate_order}
use cryptotradingbot.Execution.Live.Hooks.{managed_order_guard, reserve, release}

-- `s.startsWith(prefix)`
unfoldable pub starts_with : String → String → Bool
starts_with String.[] s = true
starts_with (String.◌∷◌ c prefix) String.[] = false
starts_with (String.◌∷◌ c prefix) (String.◌∷◌ e s) = code c == code e && starts_with prefix s

unfoldable pub is_live_id : String → Bool
is_live_id id = starts_with "live-" id

-- The statuses of an order that may still be on the exchange.
unfoldable pub is_unresolved : OrderStatus → Bool
is_unresolved created = true
is_unresolved submitted = true
is_unresolved open_order = true
is_unresolved partially_filled = true
is_unresolved unknown_status = true
is_unresolved filled = false
is_unresolved canceled = false
is_unresolved order_rejected = false
is_unresolved expired = false
is_unresolved abandoned = false

abbrev pub blocks : Order → Bool
blocks o = is_live_id o.client_order_id && is_unresolved o.order_status

-- `assertNoUnresolvedLiveOrder` throws.
unfoldable pub has_unresolved : Dict Order → Bool
has_unresolved [] = false
has_unresolved ((id, o) ∷ rest) = blocks o || has_unresolved rest

abbrev pub is_buy : Side → Bool
is_buy buy = true
is_buy sell = false

-- A refusal before anything is written.
abbrev pub refused : NewOrder → ℕ → LiveOrderResult
refused order now = record {
  order = build_recorded order order_rejected none now;
  unknown_outcome = false;
}

module _ {F : Type 0} (cfg : LiveConfig F) (r : Replies F) (order : NewOrder) where
  -- `if (reserved) this.cfg.releaseManagedQuote?.(order)`, where a BUY has reserved.
  unfoldable pub release_if_buy : Engine → Engine
  release_if_buy s = if cfg.reserves_quote && is_buy order.side then release r order s else s

  -- The order is recorded with a status, or the write throws.
  unfoldable pub fallback : OrderStatus → Bool → Engine → Attempt LiveOrderResult × Engine
  fallback status unknown s =
      let o = build_recorded order status none r.fallback_at in
      if r.fallback_saved
      then (done (record { order = o; unknown_outcome = unknown }), saved o s)
      else (thrown save_failed, s)

  -- Only a definite rejection releases the quote.
  unfoldable pub handle_submission_error : LiveError → Engine → Attempt LiveOrderResult × Engine
  handle_submission_error Model.order_rejected s = fallback order_rejected false (release_if_buy s)
  handle_submission_error e s = fallback unknown_status true s

  -- What is recorded after the exchange answered; a failing write is handled like an answer's error.
  unfoldable pub record_outcome :
      OrderStatus → Option String → Bool → Engine → Attempt LiveOrderResult × Engine
  record_outcome status exchange_id unknown s =
      let o = build_recorded order status exchange_id r.outcome_at in
      if r.outcome_saved
      then (done (record { order = o; unknown_outcome = unknown }), saved o s)
      else handle_submission_error save_failed s

  unfoldable pub after_placing :
      Attempt PlaceOrderResult → Engine → Attempt LiveOrderResult × Engine
  after_placing (thrown e) s = handle_submission_error e s
  after_placing (done result) s =
      if result.unknown_outcome
      then record_outcome unknown_status result.exchange_order_id true s
      else record_outcome submitted result.exchange_order_id false s

  -- The state in which the order is sent: it is recorded as CREATED.
  abbrev pub sending : Engine → Engine
  sending s =
      let s' = saved (build_recorded order created none r.created_at) s in
      record s' { events = sent order ∷ s'.events }

  unfoldable pub persist_and_send : Engine → Attempt LiveOrderResult × Engine
  persist_and_send s =
      if r.created_saved
      then after_placing r.placed (sending s)
      else (thrown save_failed, release_if_buy s)

module _ {F : Type 0} (d : Doubles F) (cfg : LiveConfig F) (r : Replies F) (order : NewOrder) where
  -- A BUY reserves its quote first.
  unfoldable pub reserve_and_send : Engine → Attempt LiveOrderResult × Engine
  reserve_and_send s =
      if cfg.reserves_quote && is_buy order.side
      then elim (reserve d cfg r order s) [
        | none ↦ (done (refused order r.created_at), release r order s)
        | some s' ↦ persist_and_send cfg r order s'
      ]
      else persist_and_send cfg r order s

  unfoldable pub guard_and_send : Engine → Attempt LiveOrderResult × Engine
  guard_and_send s =
      if cfg.guards_managed_state && managed_order_guard r.managed_file s.managed order
      then (done (refused order r.created_at), s)
      else if contains order.client_order_id s.orders
      then (done (refused order r.created_at), s)
      else reserve_and_send s

  -- The reads before anything is changed.
  unfoldable pub check_submission : Engine → Attempt (Unit {0})
  check_submission s = do
    throw_if (not r.ledger_readable) ledger_corrupt
    throw_if (has_unresolved s.orders) unresolved_exists
    validate_order d cfg r order

  unfoldable pub submit : Engine → Attempt LiveOrderResult × Engine
  submit s = elim (check_submission s) [ thrown e ↦ (thrown e, s) | done _ ↦ guard_and_send s ]
