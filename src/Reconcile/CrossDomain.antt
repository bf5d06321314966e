-- ===== src/Reconcile/CrossDomain.antt =====
-- reconcile/crossDomain.ts, with the statuses of manual/types.ts that it reads: what the portfolio, the
-- orders and the manual intents say of each other.
pub mod Consistent
use cryptotradingbot.Common.{
  Bool, true, false, not, ◌&&◌, Option, none, some, List, [], ◌∷◌, ◌++◌, String, if◌then◌else◌,
}
use cryptotradingbot.Common.Dict.{Dict, lookup, contains}
use cryptotradingbot.Portfolio.Model.{
  Portfolio, OrderReservation, ReservationStatus, is_active, ManualSettlement, Side, buy, sell,
}
use cryptotradingbot.Portfolio.Ids.{is_empty}
use cryptotradingbot.Reconcile.Model.{
  Order, OrderStatus, filled, canceled, order_rejected, expired, abandoned,
}

pub data ManualIntentStatus : Type 0 where
  proposed confirmed_intent evidence_recorded pending : ManualIntentStatus
  accounted_with_exchange_validation accounted_with_operator_attestation : ManualIntentStatus
  intent_reconciliation_required intent_canceled void ambiguous_intent : ManualIntentStatus

-- Of a ManualTradeIntent, what is read here.
pub record IntentState : Type 0 where
  pub intent_id : String
  pub status : ManualIntentStatus

unfoldable pub is_accounted_status : ManualIntentStatus → Bool
is_accounted_status accounted_with_exchange_validation = true
is_accounted_status accounted_with_operator_attestation = true
is_accounted_status _ = false

unfoldable pub is_terminal_order : OrderStatus → Bool
is_terminal_order filled = true
is_terminal_order canceled = true
is_terminal_order order_rejected = true
is_terminal_order expired = true
is_terminal_order abandoned = true
is_terminal_order _ = false

-- What is unresolved, of which id: the reasons, less their texts.
pub data Unresolved : Type 0 where
  orphan_reservation : String → Unresolved
  unreserved_buy : String → Unresolved
  unsettled_intent : String → Unresolved

-- `for (const [id, v] of m) if (test) push(...)`
unfoldable pub found_in :
    {V : Type 0} → (String → V → Bool) → (String → V → Unresolved) → Dict V → List Unresolved
found_in test finding [] = []
found_in test finding ((id, v) ∷ entries) =
    let rest = found_in test finding entries in if test id v then finding id v ∷ rest else rest

-- `!hasOrder && !hasManualIntent`
abbrev pub is_orphan : Dict Order → Dict IntentState → String → OrderReservation → Bool
is_orphan orders intents id r = not (contains id orders) && not (contains id intents)

-- `active.has(id)`
unfoldable pub is_actively_reserved : Option OrderReservation → Bool
is_actively_reserved none = false
is_actively_reserved (some r) = is_active r.status

-- `o.exchangeOrderId` as a test
unfoldable pub is_given : Option String → Bool
is_given none = false
is_given (some id) = not (is_empty id)

unfoldable pub is_buy : Side → Bool
is_buy buy = true
is_buy sell = false

abbrev pub is_unreserved_buy : Dict OrderReservation → String → Order → Bool
is_unreserved_buy reservations id o =
    is_buy o.side
    && not (is_terminal_order o.order_status)
    && is_given o.exchange_order_id
    && not (is_actively_reserved (lookup id reservations))

abbrev pub is_unsettled : Dict ManualSettlement → String → IntentState → Bool
is_unsettled settlements id intent =
    is_accounted_status intent.status && not (contains intent.intent_id settlements)

abbrev pub portfolio_findings : Dict Order → Option Portfolio → Dict IntentState → List Unresolved
portfolio_findings orders none intents = []
portfolio_findings orders (some p) intents =
    found_in (is_orphan orders intents) (λ id r. orphan_reservation id) p.order_reservations
    ++ found_in (is_unreserved_buy p.order_reservations) (λ id o. unreserved_buy id) orders

unfoldable pub cross_domain_validation :
    Dict Order → Option Portfolio → Dict IntentState → Dict ManualSettlement → List Unresolved
cross_domain_validation orders portfolio intents settlements =
    portfolio_findings orders portfolio intents
    ++ found_in (is_unsettled settlements) (λ id intent. unsettled_intent intent.intent_id) intents
