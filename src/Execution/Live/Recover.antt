-- ===== src/Execution/Live/Recover.antt =====
-- execution/LiveExecutionEngine.ts: the reads that bring an order of the ledger up to date,
-- `refreshOrder` and `recoverOrder`.
pub mod Attach
pub mod Stale
use Prim.Native.String.{◌++◌ as str_append}
use cryptotradingbot.Common.{
  Bool, true, false, not, ◌&&◌, Option, none, some, List, [], ◌∷◌, ◌++◌, String, str_eq,
  if◌then◌else◌,
}
use cryptotradingbot.Common.Dict.{Dict}
use cryptotradingbot.Portfolio.Ids.{is_empty}
use cryptotradingbot.Portfolio.Equity.{member}
use cryptotradingbot.Reconcile.Model.{Order}
use cryptotradingbot.Execution.Recovery.{
  ReattachmentResult, unique_match, zero_match, multiple_match, classify_reattachment,
}
use cryptotradingbot.Execution.Live.Model.{
  Engine, LiveError, save_failed, ledger_corrupt, Attempt, done, thrown, ◌>>=◌, saved,
}

-- What the outside answers: the exchange on one order, on the open orders and on the history; whether
-- the ledger loads, and whether a write to it succeeds.
pub record ReadReplies : Type 0 where
  pub order_status_read : Attempt Order
  pub open_orders : Attempt (List Order)
  pub order_history : Attempt (List Order)
  pub orders_readable : Bool
  pub recovery_saved : Bool

pub data RecoveryOutcome : Type 0 where
  refreshed unique_attached unresolved : RecoveryOutcome

-- RecoveryResult, less its message.
pub record RecoveryResult : Type 0 where
  pub order : Order
  pub outcome : RecoveryOutcome

-- `!order.exchangeOrderId`
unfoldable pub lacks_id : Option String → Bool
lacks_id none = true
lacks_id (some id) = is_empty id

abbrev pub save_or_throw : {A : Type 0} → Bool → Order → A → Engine → Attempt A × Engine
save_or_throw true o result s = (done result, saved o s)
save_or_throw false o result s = (thrown save_failed, s)

-- The exchange's order is written under the id that it carries itself.
unfoldable pub refresh_order : ReadReplies → Order → Engine → Attempt Order × Engine
refresh_order r order s =
    if lacks_id order.exchange_order_id then (done order, s) else elim r.order_status_read [
      | thrown e ↦ (thrown e, s)
      | done live ↦ save_or_throw r.recovery_saved live live s
    ]

abbrev pub id_or_empty : Option String → String
id_or_empty none = ""
id_or_empty (some id) = id

-- The loop of `gatherCandidates`, with the ids seen so far, a client id behind `c:`.
unfoldable pub first_seen : List String → List Order → List Order
first_seen seen [] = []
first_seen seen (o ∷ rest) =
    let id = id_or_empty o.exchange_order_id in
    let key = str_append "c:" o.client_order_id in
    let same = first_seen seen rest in
    let with_exchange = first_seen (id ∷ seen) rest in
    let with_client = first_seen (key ∷ seen) rest in
    if not (is_empty id)
    then (if member id seen then same else o ∷ with_exchange)
    else if not (is_empty o.client_order_id)
    then (if member key seen then same else o ∷ with_client)
    else o ∷ same

unfoldable pub gather_candidates : ReadReplies → Attempt (List Order)
gather_candidates r = r.open_orders >>= λ open_ones.
    r.order_history >>= λ history. done (first_seen [] (open_ones ++ history))

-- `a.exchangeOrderId === b.exchangeOrderId`
unfoldable pub same_exchange_id : Option String → Option String → Bool
same_exchange_id none none = true
same_exchange_id none (some b) = false
same_exchange_id (some a) none = false
same_exchange_id (some a) (some b) = str_eq a b

-- Another order of the ledger has the exchange order's id.
unfoldable pub already_owned : Order → Order → Dict Order → Bool
already_owned matched order [] = false
already_owned matched order ((id, o) ∷ rest) =
    let later = already_owned matched order rest in
    if same_exchange_id o.exchange_order_id matched.exchange_order_id
      && not (str_eq o.client_order_id order.client_order_id)
    then true
    else later

-- The exchange's state under the local order's id, reason and time of creation.
abbrev pub attached : Order → Order → Order
attached matched order = record matched {
  client_order_id = order.client_order_id;
  reason = order.reason;
  created_at_ms = order.created_at_ms;
}

abbrev pub left_unresolved : Order → RecoveryResult
left_unresolved order = record { order = order; outcome = unresolved }

unfoldable pub attach :
    ReadReplies → Order → ReattachmentResult → Engine → Attempt RecoveryResult × Engine
attach r order zero_match s = (done (left_unresolved order), s)
attach r order multiple_match s = (done (left_unresolved order), s)
attach r order (unique_match matched) s =
    if not r.orders_readable
    then (thrown ledger_corrupt, s)
    else if already_owned matched order s.orders
    then (done (left_unresolved order), s)
    else save_or_throw r.recovery_saved (attached matched order)
        (record { order = attached matched order; outcome = unique_attached }) s

unfoldable pub recover_order : Bool → ReadReplies → Order → Engine → Attempt RecoveryResult × Engine
recover_order client_order_id_is_unique r order s =
    if not (lacks_id order.exchange_order_id)
    then elim r.order_status_read [
      | thrown e ↦ (thrown e, s)
      | done live ↦
          save_or_throw r.recovery_saved live (record { order = live; outcome = refreshed }) s
    ]
    else elim (gather_candidates r) [
      | thrown e ↦ (done (left_unresolved order), s)
      | done candidates ↦
          attach r order (classify_reattachment order candidates client_order_id_is_unique) s
    ]
