-- ===== src/Reconcile/Classify.antt =====
-- reconcile/completeness.ts, feeDisposition.ts, orderReconciliation.ts and reservationReconciliation.ts:
-- the classifiers of an order's evidence.
pub mod QuoteFee
use cryptotradingbot.Common.{
  ◌≡◌, refl, Bool, true, false, not, ◌&&◌, ◌⊎◌, inl, inr, Option, none, some, String, str_eq, arith,
  if◌then◌else◌, Bool-cases,
}
use cryptotradingbot.Common.Int.{pos, ◌<ℤ◌, ltb_ℤ}
use cryptotradingbot.Money
use cryptotradingbot.Money.{Money}
use cryptotradingbot.Portfolio.Settle.Execution.{non_empty}
use cryptotradingbot.Reconcile.Model.{
  OrderStatus, created, submitted, open_order, partially_filled, filled, canceled, order_rejected,
  expired, unknown_status, abandoned, Completeness, complete, incomplete, unknown_completeness,
  FeeDisposition, quote_fee, base_fee, unknown_fee, malformed_fee, OrderDisposition, confirmed,
  partially_confirmed, ambiguous_order, operator_required, ReservationDisposition, release, retain,
}

unfoldable pub analyze_completeness : Option Money → Money → Completeness
analyze_completeness none proven_executed = unknown_completeness
analyze_completeness (some executed) proven_executed =
    if not (Money.is_positive executed)
    then (if Money.is_zero proven_executed then complete else incomplete)
    else (if ltb_ℤ executed proven_executed
        then incomplete
        else (if ltb_ℤ proven_executed executed then incomplete else unknown_completeness))

-- The product ids that a market reports for its assets.
pub record ProductIds : Type 0 where
  pub base_product_id : Option String
  pub quote_product_id : Option String

-- `id !== undefined && feeProductId === id`
abbrev pub is_product : Option String → String → Bool
is_product none fee_product_id = false
is_product (some id) fee_product_id = str_eq fee_product_id id

unfoldable pub fee_product_disposition : Option String → ProductIds → FeeDisposition
fee_product_disposition none market = unknown_fee
fee_product_disposition (some id) market =
    if is_product market.quote_product_id id
    then quote_fee
    else (if is_product market.base_product_id id then base_fee else unknown_fee)

abbrev pub product_disposition : Option String → Option ProductIds → FeeDisposition
product_disposition fee_product_id none = unknown_fee
product_disposition fee_product_id (some market) =
    fee_product_disposition (non_empty fee_product_id) market

unfoldable pub resolve_fee_disposition : Money → Option String → Option ProductIds → FeeDisposition
unfolding fee_product_disposition
resolve_fee_disposition fee fee_product_id market =
    if Money.is_negative fee
    then malformed_fee
    else (if Money.is_zero fee then quote_fee else product_disposition fee_product_id market)

unfoldable pub is_fee_automatable : FeeDisposition → Bool
is_fee_automatable quote_fee = true
is_fee_automatable base_fee = false
is_fee_automatable unknown_fee = false
is_fee_automatable malformed_fee = false

pub record OrderClassifyInput : Type 0 where
  pub local_status : OrderStatus
  pub exchange_status : Option OrderStatus
  pub exchange_executed_quantity : Option Money
  pub proven_executed : Money
  pub completeness : Completeness

abbrev pub is_complete : Completeness → Bool
is_complete complete = true
is_complete incomplete = false
is_complete unknown_completeness = false

abbrev pub is_abandoned : OrderStatus → Bool
is_abandoned abandoned = true
is_abandoned _ = false

-- What an exchange status comes to.
unfoldable pub classify_read : Option OrderStatus → Money → Completeness → OrderDisposition
classify_read none proven_executed c = ambiguous_order
classify_read (some canceled) proven_executed c =
    if Money.is_zero proven_executed then confirmed else ambiguous_order
classify_read (some order_rejected) proven_executed c =
    if Money.is_zero proven_executed then confirmed else ambiguous_order
classify_read (some expired) proven_executed c =
    if Money.is_zero proven_executed then confirmed else ambiguous_order
classify_read (some filled) proven_executed c =
    if is_complete c then confirmed else operator_required
classify_read (some partially_filled) proven_executed c =
    if is_complete c then partially_confirmed else ambiguous_order
classify_read (some open_order) proven_executed c =
    if Money.is_zero proven_executed then confirmed else ambiguous_order
classify_read (some created) proven_executed c = ambiguous_order
classify_read (some submitted) proven_executed c = ambiguous_order
classify_read (some unknown_status) proven_executed c = ambiguous_order
classify_read (some abandoned) proven_executed c = ambiguous_order

unfoldable pub classify_order : OrderClassifyInput → OrderDisposition
unfolding classify_read
classify_order input =
    if is_abandoned input.local_status
    then confirmed
    else classify_read input.exchange_status input.proven_executed input.completeness

-- Canceled, rejected or expired at the exchange.
abbrev pub is_no_fill_status : Option OrderStatus → Bool
is_no_fill_status (some canceled) = true
is_no_fill_status (some order_rejected) = true
is_no_fill_status (some expired) = true
is_no_fill_status _ = false

unfoldable pub is_terminal_no_fill : Option OrderStatus → Money → Bool
is_terminal_no_fill exchange_status proven_executed =
    is_no_fill_status exchange_status && Money.is_zero proven_executed

pub record ReservationDecisionInput : Type 0 where
  pub has_reservation : Bool
  pub exchange_status : Option OrderStatus
  pub proven_executed : Money
  pub accounting_complete : Bool

abbrev pub is_filled : Option OrderStatus → Bool
is_filled (some filled) = true
is_filled _ = false

unfoldable pub reservation_disposition : ReservationDecisionInput → ReservationDisposition
unfolding is_terminal_no_fill
reservation_disposition input =
    if not input.has_reservation
    then retain
    else (if is_terminal_no_fill input.exchange_status input.proven_executed
        then release
        else (if is_filled input.exchange_status && input.accounting_complete
            then release
            else retain))

-- An order that the exchange reports filled with a positive quantity is never confirmed from that
-- read: whatever is proven of it, it goes to the operator, unless it was abandoned locally.
pub filled_needs_operator :
    (local : OrderStatus) (executed proven_executed : Money)
    → is_abandoned local ≡ false
    → pos 0 <ℤ executed
    → classify_order (record {
      local_status = local;
      exchange_status = some filled;
      exchange_executed_quantity = some executed;
      proven_executed = proven_executed;
      completeness = analyze_completeness (some executed) proven_executed;
    })
      ≡ operator_required
unfolding classify_order analyze_completeness
filled_needs_operator local executed proven_executed h p = ground (arith, h, p)

-- The exchange ended the order by canceling, rejecting or expiring it.
abbrev pub IsEnded : Option OrderStatus → Type 0
IsEnded s = (s ≡ some canceled) ⊎ ((s ≡ some order_rejected) ⊎ (s ≡ some expired))

-- When a reservation may be released: the exchange filled the order and its accounting is complete, or
-- the exchange ended the order and nothing of it is proven executed.
abbrev pub IsReleasable : ReservationDecisionInput → Type 0
IsReleasable input =
    (input.has_reservation ≡ true)
    × (((input.exchange_status ≡ some filled) × (input.accounting_complete ≡ true))
        ⊎ (IsEnded input.exchange_status × (input.proven_executed ≡ pos 0)))

is_no_fill_status-IsEnded : (s : Option OrderStatus) → is_no_fill_status s ≡ true → IsEnded s
is_no_fill_status-IsEnded s h = ground (arith, h)

IsEnded-is_no_fill_status : (s : Option OrderStatus) → IsEnded s → is_no_fill_status s ≡ true
IsEnded-is_no_fill_status s (inl e) = rw e refl
IsEnded-is_no_fill_status s (inr (inl e)) = rw e refl
IsEnded-is_no_fill_status s (inr (inr e)) = rw e refl

is_filled_lem : (s : Option OrderStatus) → is_filled s ≡ true → s ≡ some filled
is_filled_lem s h = ground (arith, h)

released-IsReleasable :
    (input : ReservationDecisionInput)
    → reservation_disposition input ≡ release
    → IsReleasable input
unfolding reservation_disposition is_terminal_no_fill
released-IsReleasable input h = (
  ground (arith, h),
  elim (Bool-cases (is_terminal_no_fill input.exchange_status input.proven_executed)) [
    | inl e ↦
        inr (is_no_fill_status-IsEnded input.exchange_status (ground (arith, e)), ground (arith, e))
    | inr e ↦ inl (is_filled_lem input.exchange_status (ground (arith, e, h)), ground (arith, e, h))
  ],
)

IsReleasable-released :
    (input : ReservationDecisionInput)
    → IsReleasable input
    → reservation_disposition input ≡ release
unfolding reservation_disposition is_terminal_no_fill
IsReleasable-released input (held, inl (e, whole)) = rw (held, e, whole) refl
IsReleasable-released input (held, inr (e, unproven)) =
    rw (held, IsEnded-is_no_fill_status input.exchange_status e, unproven) refl

ended-confirmed :
    (local : OrderStatus) (s : Option OrderStatus) (executed : Option Money)
    (proven_executed : Money) (c : Completeness)
    → IsEnded s
    → proven_executed ≡ pos 0
    → classify_order (record {
      local_status = local;
      exchange_status = s;
      exchange_executed_quantity = executed;
      proven_executed = proven_executed;
      completeness = c;
    })
      ≡ confirmed
unfolding classify_order classify_read
ended-confirmed local s executed q c (inl e) z = rw (e, z) (ground arith)
ended-confirmed local s executed q c (inr (inl e)) z = rw (e, z) (ground arith)
ended-confirmed local s executed q c (inr (inr e)) z = rw (e, z) (ground arith)

-- `reservationDisposition` releases a reservation exactly where there is one and either the exchange filled
-- the order and its accounting is complete, or the exchange canceled, rejected or expired the order and
-- nothing of it is proven executed. An order of the second kind is one that `classifyOrder` confirms,
-- whatever its local status and completeness.
pub release_is_safe :
    (input : ReservationDecisionInput) (local : OrderStatus) (executed : Option Money)
    (c : Completeness)
    → (reservation_disposition input ≡ release → IsReleasable input)
      × (IsReleasable input → reservation_disposition input ≡ release)
      × (IsEnded input.exchange_status
          → input.proven_executed ≡ pos 0
          → classify_order (record {
            local_status = local;
            exchange_status = input.exchange_status;
            exchange_executed_quantity = executed;
            proven_executed = input.proven_executed;
            completeness = c;
          })
            ≡ confirmed)
release_is_safe input local executed c = (
  released-IsReleasable input,
  IsReleasable-released input,
  ended-confirmed local input.exchange_status executed input.proven_executed c,
)
