-- ===== src/Tests/Preparing.antt =====
-- execution/LiveExecutionEngine.ts: a BUY at the approved price of 30, prepared and then placed.
use cryptotradingbot.Common.{◌≡◌, refl, none, some, true}
use cryptotradingbot.Common.Int.{ℤ, ◌+ℤ◌, ◌-ℤ◌, ◌*ℤ◌, quot, rem, neg}
use cryptotradingbot.Money
use cryptotradingbot.MarketData.Freshness.{evaluate_freshness, check_quote, check_transport}
use cryptotradingbot.Risk.Doubles.{fraction_of}
use cryptotradingbot.Risk.Model.{buy_signal, RiskApproval}
use cryptotradingbot.Risk.State.{initial_state, remaining_cooldown_ms, applied_limits_of}
use cryptotradingbot.Risk.Quantity.{validate_market_quantity, check_price_tick}
use cryptotradingbot.Risk.Sell.{
  evaluate_sell, least, resolve_sell_target, target_base_of, admit_notional, admit_fraction,
}
use cryptotradingbot.Risk.Buy.{
  least_cap, binding_cap, estimated_fee, check_max_open_positions, check_daily_loss, check_drawdown,
  check_cooldown, position_cap, exposure_cap, trade_cap, compute_buy_caps, size_buy, check_funding,
  check_gates, evaluate_buy,
}
use cryptotradingbot.Risk.Manager.{evaluate, judge, size_of, decision_of}
use cryptotradingbot.Tests.Data.{units}
use cryptotradingbot.Common.{refl, none, some}
use cryptotradingbot.Reconcile.Model.{limit_order}
use cryptotradingbot.Execution.Live.Model.{NewOrder, done}
use cryptotradingbot.Execution.Live.Submit.{submit}
use cryptotradingbot.Execution.Live.Place.{
  PreparedLiveOrder, next_client_order_id, assert_gate, order_from_approval, same_transaction,
  prepare_decided, prepare, place_prepared,
}
use cryptotradingbot.Execution.Live.Place.Prepared.{placed_as_prepared}
use cryptotradingbot.Tests.Gate.{
  in_billionths, limits, context, approval_of, some_approval, decide, decide_buy,
}
use cryptotradingbot.Tests.Live.{live_config, accepted, idle, no_capabilities, at_30}

abbrev approval : RiskApproval ℤ
approval = approval_of some_approval (decide buy_signal)

abbrev built_order : NewOrder
built_order = record {
  symbol = "BTC/CAD";
  side = approval.side;
  order_type = limit_order;
  quantity = approval.quantity;
  price = some (units 30);
  tif = none;
  client_order_id = next_client_order_id "BTC/CAD" "u1";
  reason = "";
}

abbrev prepared : PreparedLiveOrder ℤ
prepared = record { order = built_order; approval = approval; intent = at_30 }

gate_open : assert_gate live_config no_capabilities ≡ done tt
unfolding assert_gate
gate_open = refl

built : order_from_approval live_config "BTC/CAD" approval at_30 "u1" ≡ done built_order
unfolding order_from_approval
built = refl

prepared-done :
    prepare in_billionths live_config limits initial_state no_capabilities
      (context buy_signal)
      at_30
      "u1"
    ≡ done prepared
unfolding prepare prepare_decided
prepared-done = rw (prepare, gate_open, decide_buy, prepare_decided, built) refl

approval_fields :
    (approval.symbol ≡ "BTC/CAD")
    × (some (units 30) ≡ some approval.price)
    × (same_transaction approval approval ≡ true)
unfolding same_transaction fraction_of applied_limits_of remaining_cooldown_ms
    validate_market_quantity check_price_tick evaluate_sell least resolve_sell_target target_base_of
    admit_notional admit_fraction least_cap binding_cap estimated_fee check_max_open_positions
    check_daily_loss check_drawdown check_cooldown position_cap exposure_cap trade_cap
    compute_buy_caps size_buy check_funding check_gates evaluate_buy evaluate judge size_of
    decision_of evaluate_freshness check_quote check_transport Money.mul Money.div Money.half_up
    Money.mul_fraction Money.floor_to_increment Money.is_multiple_of ◌+ℤ◌ ◌-ℤ◌ ◌*ℤ◌ quot rem neg
approval_fields = (refl, refl, refl)

placed_as_prepared_example :
    place_prepared in_billionths live_config limits initial_state no_capabilities accepted
      (context buy_signal)
      prepared
      "u2"
      idle
    ≡ submit in_billionths live_config accepted built_order idle
placed_as_prepared_example =
    placed_as_prepared in_billionths live_config limits initial_state no_capabilities
      no_capabilities (context buy_signal) (context buy_signal) at_30 "u1" "u2" prepared approval
      initial_state accepted idle prepared-done approval_fields.0 approval_fields.1 gate_open
      decide_buy approval_fields.2
