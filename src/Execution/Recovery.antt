-- ===== src/Execution/Recovery.antt =====
-- execution/recovery.ts: which of the exchange's orders is provably an order of the local ledger.
use cryptotradingbot.Common.{
  Bool, false, not, ◌&&◌, Option, none, some, List, [], ◌∷◌, String, str_eq, if◌then◌else◌,
}
use cryptotradingbot.Portfolio.Ids.{is_empty}
use cryptotradingbot.Reconcile.Model.{Order}

-- `MALFORMED`, a missing order or a list that is none, is excluded by the types.
pub data ReattachmentResult : Type 0 where
  unique_match : Order → ReattachmentResult
  zero_match multiple_match : ReattachmentResult

-- `a && b && a === b`, of two ids.
unfoldable pub same_given_id : Option String → Option String → Bool
same_given_id none b = false
same_given_id (some a) none = false
same_given_id (some a) (some b) = not (is_empty a) && not (is_empty b) && str_eq b a

-- The policy is whether the exchange guarantees that client order ids are unique.
unfoldable pub is_provable_reattachment_match : Order → Order → Bool → Bool
is_provable_reattachment_match local candidate client_order_id_is_unique =
    if same_given_id local.exchange_order_id candidate.exchange_order_id
    then str_eq candidate.symbol local.symbol
    else client_order_id_is_unique
      && not (is_empty candidate.client_order_id)
      && str_eq candidate.symbol local.symbol
      && str_eq candidate.client_order_id local.client_order_id

unfoldable pub provable : Order → List Order → Bool → List Order
provable local [] policy = []
provable local (c ∷ rest) policy =
    let found = provable local rest policy in
    if is_provable_reattachment_match local c policy then c ∷ found else found

abbrev pub result_of_matches : List Order → ReattachmentResult
result_of_matches [] = zero_match
result_of_matches (c ∷ []) = unique_match c
result_of_matches (c ∷ d ∷ rest) = multiple_match

unfoldable pub classify_reattachment : Order → List Order → Bool → ReattachmentResult
classify_reattachment local candidates policy = result_of_matches (provable local candidates policy)
