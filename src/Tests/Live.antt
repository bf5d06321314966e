-- ===== src/Tests/Live.antt =====
-- execution/LiveExecutionEngine.ts on one BUY of two coins.
use cryptotradingbot.Common.{◌≡◌, ◌⊎◌, refl, none, some, [], ◌∷◌, false, true}
use cryptotradingbot.Common.Int.{ℤ, pos, ◌+ℤ◌, ◌-ℤ◌, ◌*ℤ◌, quot, rem}
use cryptotradingbot.Common.Dict.{lookup, insert}
use cryptotradingbot.Money
use cryptotradingbot.Portfolio.Model.{buy, Balance}
use cryptotradingbot.Portfolio.Ids.{base_of, quote_of}
use cryptotradingbot.Portfolio.Reserve.{reserve_order, deployable_quote}
use cryptotradingbot.Reconcile.Model.{limit_order, submitted, unknown_status}
use cryptotradingbot.Risk.Doubles.{fraction_of}
use cryptotradingbot.Risk.Model.{buy_signal}
use cryptotradingbot.Risk.State.{initial_state}
use cryptotradingbot.Execution.Live.Model.{
  NewOrder, LiveConfig, Replies, Engine, done, thrown, timeout, loaded, build_recorded, saved,
}
use cryptotradingbot.Execution.Live.Validate.{
  is_off_grid, find_balance, check_funds, assert_sufficient_balance, estimate_quote_fee,
  check_exposure, validate_order,
}
use cryptotradingbot.Execution.Live.Validate.Submittable.{
  IsSubmittable, validate_order-IsSubmittable,
}
use cryptotradingbot.Execution.Live.Hooks.{
  managed_order_guard, reserved_cost, reserved_portfolio, reserve, release,
}
use cryptotradingbot.Execution.Live.Submit.{
  starts_with, is_live_id, is_unresolved, has_unresolved, release_if_buy, fallback,
  handle_submission_error, record_outcome, after_placing, persist_and_send, reserve_and_send,
  guard_and_send, check_submission, submit,
}
use cryptotradingbot.Execution.Live.Submit.Quiet.{sent_orders}
use cryptotradingbot.Execution.Live.Submit.InFlight.{
  Reach, here, next, submits, IsSingle, Reach-IsSingle,
}
use cryptotradingbot.Execution.Live.Submit.SendOnce.{IsSentOnce, Reach-IsSentOnce}
use cryptotradingbot.Execution.Live.Submit.Outcome.{IsKept, IsRejected, submit-IsKept}
use cryptotradingbot.Execution.Live.Place.{
  Capabilities, LiveOrderIntent, PreparedLiveOrder, place, place_prepared,
}
use cryptotradingbot.Execution.Live.Place.Authorized.{
  IsAuthorized, place-IsAuthorized, place_prepared-IsAuthorized,
}
use cryptotradingbot.Tests.Data.{units, book}
use cryptotradingbot.Tests.Gate.{
  in_billionths, limits, market, context, approval_of, some_approval, decide,
}

abbrev pub live_config : LiveConfig ℤ
live_config = record {
  trading_mode_live = true;
  real_funds_at_risk = true;
  kill_switch = false;
  client_order_id_is_unique = false;
  max_live_quote_notional = units 500;
  max_live_base_quantity = units 10;
  controlled_live_authorization = none;
  autonomous_live_session = none;
  supports_order_placement = true;
  guards_managed_state = true;
  reserves_quote = true;
  hook_fees = market.fee_info;
}

abbrev cad : Balance
cad = record { currency = "CAD"; total = units 900; available = units 900; held = pos 0 }

abbrev pub accepted : Replies ℤ
accepted = record {
  ledger_readable = true;
  market = done market;
  balances = done (cad ∷ []);
  ticker_last = done none;
  managed_file = loaded;
  reserve_saved = true;
  release_saved = true;
  created_saved = true;
  placed = done (record { exchange_order_id = some "77"; unknown_outcome = false });
  outcome_saved = true;
  fallback_saved = true;
  created_at = 1;
  outcome_at = 2;
  fallback_at = 3;
}

abbrev timed_out : Replies ℤ
timed_out = record accepted { placed = thrown timeout }

abbrev pub two_at_100 : NewOrder
two_at_100 = record {
  symbol = "BTC/CAD";
  side = buy;
  order_type = limit_order;
  quantity = units 2;
  price = some (units 100);
  tif = none;
  client_order_id = "live-BTCCAD-u1";
  reason = "";
}

abbrev pub idle : Engine
idle = record { orders = []; managed = book; events = [] }

validates : validate_order in_billionths live_config accepted two_at_100 ≡ done tt
unfolding is_off_grid find_balance check_funds assert_sufficient_balance estimate_quote_fee
    check_exposure validate_order fraction_of base_of quote_of Money.mul Money.half_up
    Money.mul_fraction Money.is_multiple_of ◌+ℤ◌ ◌-ℤ◌ ◌*ℤ◌ quot rem
validates = refl

validate_order-IsSubmittable_example : IsSubmittable in_billionths live_config accepted two_at_100
validate_order-IsSubmittable_example =
    validate_order-IsSubmittable in_billionths live_config accepted two_at_100 validates

abbrev after_timeout : Engine
after_timeout = (submit in_billionths live_config timed_out two_at_100 idle).1

-- The order is recorded as SUBMITTED, or as UNKNOWN after a timeout.
acknowledged :
    (submit in_billionths live_config accepted two_at_100 idle).0
    ≡ done (record {
      order = build_recorded two_at_100 submitted (some "77") 2;
      unknown_outcome = false;
    })
unfolding is_off_grid find_balance check_funds assert_sufficient_balance estimate_quote_fee
    check_exposure validate_order fraction_of base_of quote_of Money.mul Money.half_up
    Money.mul_fraction Money.is_multiple_of ◌+ℤ◌ ◌-ℤ◌ ◌*ℤ◌ quot rem managed_order_guard
    reserved_cost reserved_portfolio reserve release starts_with is_live_id is_unresolved
    has_unresolved release_if_buy fallback handle_submission_error record_outcome after_placing
    persist_and_send reserve_and_send guard_and_send check_submission submit reserve_order
    deployable_quote lookup insert saved build_recorded
acknowledged = refl

recorded_unknown :
    lookup "live-BTCCAD-u1" after_timeout.orders
    ≡ some (build_recorded two_at_100 unknown_status none 3)
unfolding is_off_grid find_balance check_funds assert_sufficient_balance estimate_quote_fee
    check_exposure validate_order fraction_of base_of quote_of Money.mul Money.half_up
    Money.mul_fraction Money.is_multiple_of ◌+ℤ◌ ◌-ℤ◌ ◌*ℤ◌ quot rem managed_order_guard
    reserved_cost reserved_portfolio reserve release starts_with is_live_id is_unresolved
    has_unresolved release_if_buy fallback handle_submission_error record_outcome after_placing
    persist_and_send reserve_and_send guard_and_send check_submission submit reserve_order
    deployable_quote lookup insert saved build_recorded
recorded_unknown = refl

nothing_known : lookup "live-BTCCAD-u1" idle.orders ≡ none
unfolding lookup
nothing_known = refl

submit-IsKept_example :
    IsKept in_billionths live_config timed_out two_at_100
      (build_recorded two_at_100 unknown_status none 3)
      after_timeout.managed
    ⊎ IsRejected in_billionths live_config timed_out two_at_100
        (build_recorded two_at_100 unknown_status none 3)
submit-IsKept_example =
    submit-IsKept in_billionths live_config timed_out two_at_100 idle
      (build_recorded two_at_100 unknown_status none 3) refl refl nothing_known recorded_unknown

-- Two submissions, of which the second is refused.
abbrev after_two : Engine
after_two = (submit in_billionths live_config accepted two_at_100 after_timeout).1

two_submissions : Reach in_billionths idle after_two
two_submissions =
    next (next here (submits live_config timed_out two_at_100 refl))
      (submits live_config accepted two_at_100 refl)

idle-IsSingle : IsSingle idle.orders
unfolding lookup
idle-IsSingle = λ i j a b p q u v. cc

idle-IsSentOnce : IsSentOnce idle
unfolding sent_orders
idle-IsSentOnce = record { distinct = tt; recorded_first = tt }

Reach-IsSingle_example : IsSingle after_two.orders
Reach-IsSingle_example = Reach-IsSingle in_billionths two_submissions idle-IsSingle

Reach-IsSentOnce_example : IsSentOnce after_two
Reach-IsSentOnce_example = Reach-IsSentOnce in_billionths two_submissions idle-IsSentOnce

abbrev pub no_capabilities : Capabilities
no_capabilities = record { sessions = []; issued_scopes = []; at_ms = pos 0 }

abbrev pub at_30 : LiveOrderIntent
at_30 = record { reason = ""; order_type = some limit_order; price = some (units 30); tif = none }

-- The order that the risk manager's approval of a BUY at 30 prepares.
abbrev prepared : PreparedLiveOrder ℤ
prepared = record {
  order = record two_at_100 { quantity = pos 333330000; price = some (units 30) };
  approval = approval_of some_approval (decide buy_signal);
  intent = at_30;
}

place-IsAuthorized_example :
    let after =
      (place in_billionths live_config limits initial_state no_capabilities accepted
        (context buy_signal)
        at_30
        "u2"
        idle).1 in
    (sent_orders after.events ≡ sent_orders idle.events)
    ⊎ ((order : NewOrder) × (sent_orders after.events ≡ order ∷ sent_orders idle.events)
        × IsAuthorized in_billionths live_config limits initial_state no_capabilities accepted
            (context buy_signal)
            order
        × (order.symbol ≡ "BTC/CAD")
        × (order.price ≡ some (units 30)))
place-IsAuthorized_example =
    place-IsAuthorized in_billionths live_config limits initial_state no_capabilities accepted
      (context buy_signal) at_30 "u2" idle

place_prepared-IsAuthorized_example :
    let after =
      (place_prepared in_billionths live_config limits initial_state no_capabilities accepted
        (context buy_signal)
        prepared
        "u2"
        idle).1 in
    (sent_orders after.events ≡ sent_orders idle.events)
    ⊎ ((sent_orders after.events ≡ prepared.order ∷ sent_orders idle.events)
        × (x : IsAuthorized in_billionths live_config limits initial_state no_capabilities accepted
            (context buy_signal)
            prepared.order)
        × (prepared.order.symbol ≡ x.approval.symbol)
        × (prepared.order.price ≡ some x.approval.price))
place_prepared-IsAuthorized_example =
    place_prepared-IsAuthorized in_billionths live_config limits initial_state no_capabilities
      accepted (context buy_signal) prepared "u2" idle
