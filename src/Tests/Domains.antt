-- ===== src/Tests/Domains.antt =====
-- reconcile/crossDomain.ts on an order with its reservation and a manual intent without a settlement.
use cryptotradingbot.Common.{◌≡◌, refl, some, [], ◌∷◌}
use cryptotradingbot.Common.Dict.{Dict, lookup}
use cryptotradingbot.Reconcile.Model.{Order}
use cryptotradingbot.Reconcile.CrossDomain.{
  IntentState, unsettled_intent, orphan_reservation, accounted_with_exchange_validation, proposed,
  found_in, is_actively_reserved, is_given, is_buy, is_accounted_status, is_terminal_order,
  cross_domain_validation,
}
use cryptotradingbot.Tests.Data.{book}
use cryptotradingbot.Tests.Evidence.{order}

abbrev orders : Dict Order
orders = ("o1", order) ∷ []

abbrev new_intent : Dict IntentState
new_intent = ("i1", record { intent_id = "i1"; status = proposed }) ∷ []

abbrev accounted_intent : Dict IntentState
accounted_intent =
    ("i1", record { intent_id = "i1"; status = accounted_with_exchange_validation }) ∷ []

all_resolved : cross_domain_validation orders (some book) new_intent [] ≡ []
unfolding cross_domain_validation found_in is_actively_reserved is_given is_buy is_accounted_status
    is_terminal_order lookup
all_resolved = refl

-- Without the order its reservation is an orphan, and the intent lacks a settlement.
two_unresolved :
    cross_domain_validation [] (some book) accounted_intent []
    ≡ orphan_reservation "o1" ∷ unsettled_intent "i1" ∷ []
unfolding cross_domain_validation found_in is_actively_reserved is_given is_buy is_accounted_status
    is_terminal_order lookup
two_unresolved = refl
