-- ===== src/Tests/Gate.antt =====
-- risk/RiskManager.ts on a configuration whose fractions are given in billionths.
use cryptotradingbot.Common.{◌≡◌, refl, none, some, true, false}
use cryptotradingbot.Common.Int.{ℤ, pos, ◌+ℤ◌, ◌-ℤ◌, ◌*ℤ◌, ltb_ℤ, leb_ℤ, quot, rem, neg}
use cryptotradingbot.Common.Result.{Result, ok, err}
use cryptotradingbot.Money
use cryptotradingbot.Portfolio.Model.{buy, sell, quote}
use cryptotradingbot.MarketData.Freshness.{
  evaluate_freshness, check_quote, check_transport, fresh, IsFresh, evaluate_freshness-IsFresh,
}
use cryptotradingbot.Risk.Doubles.{Doubles, fraction_of}
use cryptotradingbot.Risk.Model.{
  RiskConfig, RiskContext, MarketInfo, buy_signal, sell_signal, RiskApproval, SignalType,
}
use cryptotradingbot.Risk.State.{initial_state, remaining_cooldown_ms, applied_limits_of}
use cryptotradingbot.Risk.Quantity.{validate_market_quantity, check_price_tick}
use cryptotradingbot.Risk.Sell.{
  evaluate_sell, least, resolve_sell_target, target_base_of, admit_notional, admit_fraction,
}
use cryptotradingbot.Risk.Buy.{
  least_cap, binding_cap, estimated_fee, check_max_open_positions, check_daily_loss, check_drawdown,
  check_cooldown, position_cap, exposure_cap, trade_cap, compute_buy_caps, size_buy, check_funding,
  check_gates, evaluate_buy,
}
use cryptotradingbot.Risk.Manager.{
  RiskDecision, approved, rejected, evaluate, judge, size_of, decision_of, freshness_input,
}
use cryptotradingbot.Risk.Manager.Approval.{IsGrounded}
use cryptotradingbot.Risk.Manager.BuySafety.{IsSafeBuy, approved_buy_safe}
use cryptotradingbot.Risk.Manager.SellSafety.{
  IsSafeSell, approved_sell_safe, sell_never_gated, without_account,
}
use cryptotradingbot.Tests.Data.{units}

-- Fractions as whole billionths.
abbrev pub in_billionths : Doubles ℤ
in_billionths = record {
  is_finite = λ f. true;
  is_above_zero = λ f. ltb_ℤ (pos 0) f;
  is_below_or_zero = λ f. leb_ℤ f (pos 0);
  is_above_one = λ f. ltb_ℤ (pos 1000000000) f;
  one_minus = λ f. pos 1000000000 -ℤ f;
  one_plus = λ f. pos 1000000000 +ℤ f;
  billionths = λ f. ok f;
}

abbrev pub limits : RiskConfig ℤ
limits = record {
  max_trade_amount = units 100;
  max_position_size_fraction = pos 500000000;
  max_portfolio_exposure_fraction = pos 800000000;
  max_daily_loss_fraction = pos 50000000;
  max_drawdown_fraction = pos 200000000;
  cooldown_after_loss_ms = pos 60000;
  max_open_positions_limit = pos 2;
  market_data_max_age_ms = pos 60000;
  market_data_transport_max_age_ms = pos 60000;
  max_clock_skew_ms = pos 120000;
}

abbrev pub market : MarketInfo ℤ
market = record {
  market_symbol = "BTC/CAD";
  exchange_id = "1";
  price_tick = pos 1000000;
  base_precision = 8;
  quote_precision = 2;
  quantity_tick = pos 10000;
  min_order_base = some (pos 10000);
  min_order_quote = none;
  supports_market_orders = true;
  fee_info = some (record { maker = pos 0; taker = pos 2000000; charged_in = quote });
}

abbrev pub context : SignalType → RiskContext ℤ
context signal = record {
  symbol = "BTC/CAD";
  signal_type = signal;
  now_ms = pos 1000000;
  market_data_timestamp_ms = some (pos 999000);
  market_data_observed_at_ms = some (pos 999500);
  price = some (units 30);
  market_info = some market;
  quote_balance = none;
  deployable_quote = some (units 800);
  portfolio_value = some (units 1000);
  peak_portfolio_value = some (units 1100);
  portfolio_exposure = some (units 60);
  current_position = some (units 2);
  external_position = none;
  open_managed_position_count = some (pos 1);
  realized_pnl_today = some (pos 0);
  unrealized_pnl_today = some (neg (units 10));
  sell_target = none;
}

abbrev pub approval_of : RiskApproval ℤ → Result (RiskDecision ℤ) → RiskApproval ℤ
approval_of a (ok (approved b)) = b
approval_of a (ok (rejected r)) = a
approval_of a (err e) = a

abbrev pub some_approval : RiskApproval ℤ
some_approval = record {
  symbol = "";
  side = buy;
  quantity = pos 0;
  estimated_notional = pos 0;
  price = pos 0;
  applied_limits = applied_limits_of limits initial_state;
}

abbrev pub decide : SignalType → Result (RiskDecision ℤ)
decide signal = evaluate in_billionths limits initial_state (context signal)

pub decide_buy : decide buy_signal ≡ ok (approved (approval_of some_approval (decide buy_signal)))
unfolding fraction_of applied_limits_of remaining_cooldown_ms validate_market_quantity
    check_price_tick evaluate_sell least resolve_sell_target target_base_of admit_notional
    admit_fraction least_cap binding_cap estimated_fee check_max_open_positions check_daily_loss
    check_drawdown check_cooldown position_cap exposure_cap trade_cap compute_buy_caps size_buy
    check_funding check_gates evaluate_buy evaluate judge size_of decision_of evaluate_freshness
    check_quote check_transport Money.mul Money.div Money.half_up Money.mul_fraction
    Money.floor_to_increment Money.is_multiple_of ◌+ℤ◌ ◌-ℤ◌ ◌*ℤ◌ quot rem neg
decide_buy = refl

decide_sell : decide sell_signal ≡ ok (approved (approval_of some_approval (decide sell_signal)))
unfolding fraction_of applied_limits_of remaining_cooldown_ms validate_market_quantity
    check_price_tick evaluate_sell least resolve_sell_target target_base_of admit_notional
    admit_fraction least_cap binding_cap estimated_fee check_max_open_positions check_daily_loss
    check_drawdown check_cooldown position_cap exposure_cap trade_cap compute_buy_caps size_buy
    check_funding check_gates evaluate_buy evaluate judge size_of decision_of evaluate_freshness
    check_quote check_transport Money.mul Money.div Money.half_up Money.mul_fraction
    Money.floor_to_increment Money.is_multiple_of ◌+ℤ◌ ◌-ℤ◌ ◌*ℤ◌ quot rem neg
decide_sell = refl

-- 100 at 30 with a tick of 0.0001 is 3.3333.
bought_quantity : (approval_of some_approval (decide buy_signal)).quantity ≡ pos 333330000
unfolding fraction_of applied_limits_of remaining_cooldown_ms validate_market_quantity
    check_price_tick evaluate_sell least resolve_sell_target target_base_of admit_notional
    admit_fraction least_cap binding_cap estimated_fee check_max_open_positions check_daily_loss
    check_drawdown check_cooldown position_cap exposure_cap trade_cap compute_buy_caps size_buy
    check_funding check_gates evaluate_buy evaluate judge size_of decision_of evaluate_freshness
    check_quote check_transport Money.mul Money.div Money.half_up Money.mul_fraction
    Money.floor_to_increment Money.is_multiple_of ◌+ℤ◌ ◌-ℤ◌ ◌*ℤ◌ quot rem neg
bought_quantity = refl

approved_buy_safe_example :
    let a = approval_of some_approval (decide buy_signal) in
    IsGrounded in_billionths limits initial_state (context buy_signal) buy a.price
    × IsSafeBuy in_billionths limits initial_state
        (context buy_signal)
        a.price
        (record { sized_quantity = a.quantity; sized_notional = a.estimated_notional })
unfolding fraction_of applied_limits_of remaining_cooldown_ms validate_market_quantity
    check_price_tick evaluate_sell least resolve_sell_target target_base_of admit_notional
    admit_fraction least_cap binding_cap estimated_fee check_max_open_positions check_daily_loss
    check_drawdown check_cooldown position_cap exposure_cap trade_cap compute_buy_caps size_buy
    check_funding check_gates evaluate_buy evaluate judge size_of decision_of evaluate_freshness
    check_quote check_transport Money.mul Money.div Money.half_up Money.mul_fraction
    Money.floor_to_increment Money.is_multiple_of ◌+ℤ◌ ◌-ℤ◌ ◌*ℤ◌ quot rem neg
approved_buy_safe_example =
    approved_buy_safe in_billionths limits initial_state (context buy_signal)
      (approval_of some_approval (decide buy_signal)) decide_buy refl

approved_sell_safe_example :
    let a = approval_of some_approval (decide sell_signal) in
    IsGrounded in_billionths limits initial_state (context sell_signal) sell a.price
    × IsSafeSell in_billionths
        (context sell_signal)
        a.price
        (record { sized_quantity = a.quantity; sized_notional = a.estimated_notional })
unfolding fraction_of applied_limits_of remaining_cooldown_ms validate_market_quantity
    check_price_tick evaluate_sell least resolve_sell_target target_base_of admit_notional
    admit_fraction least_cap binding_cap estimated_fee check_max_open_positions check_daily_loss
    check_drawdown check_cooldown position_cap exposure_cap trade_cap compute_buy_caps size_buy
    check_funding check_gates evaluate_buy evaluate judge size_of decision_of evaluate_freshness
    check_quote check_transport Money.mul Money.div Money.half_up Money.mul_fraction
    Money.floor_to_increment Money.is_multiple_of ◌+ℤ◌ ◌-ℤ◌ ◌*ℤ◌ quot rem neg
approved_sell_safe_example =
    approved_sell_safe in_billionths limits initial_state (context sell_signal)
      (approval_of some_approval (decide sell_signal)) decide_sell refl

sell_never_gated_example :
    evaluate in_billionths limits
      (record { kill_switch_on = false; cooldown_until_ms = some (pos 1) })
      (without_account in_billionths (context sell_signal))
    ≡ evaluate in_billionths limits initial_state (context sell_signal)
sell_never_gated_example =
    sell_never_gated in_billionths limits initial_state (some (pos 1)) (context sell_signal) refl

evaluate_freshness-IsFresh_example :
    let input = freshness_input in_billionths limits (context buy_signal) in
    (evaluate_freshness input ≡ fresh → IsFresh input)
    × (IsFresh input → evaluate_freshness input ≡ fresh)
evaluate_freshness-IsFresh_example =
    evaluate_freshness-IsFresh (freshness_input in_billionths limits (context buy_signal))
