-- ===== src/Tests/Paper.antt =====
-- execution/PaperExecutionEngine.ts on a BUY, a resting SELL, and what follows them.
use cryptotradingbot.Common.{arith, Option, ◌≡◌, refl, true, none, some, List, [], ◌∷◌}
use cryptotradingbot.Common.Int.{ℤ, pos, ◌+ℤ◌, ◌-ℤ◌, ◌*ℤ◌, quot, rem}
use cryptotradingbot.Common.Dict.{lookup, insert}
use cryptotradingbot.Common.Result.{Result, ok, err, bad_quantity}
use cryptotradingbot.Money
use cryptotradingbot.Money.{Money}
use cryptotradingbot.Portfolio.Model.{buy, sell}
use cryptotradingbot.Portfolio.Ids.{base_of, quote_of}
use cryptotradingbot.Portfolio.Equity.{member, track_peak, equity_of, add_cash, add_cost}
use cryptotradingbot.Portfolio.Ownership.{source_breakdown_of}
use cryptotradingbot.Portfolio.Reserve.{deployable_quote}
use cryptotradingbot.Portfolio.Fill.{quote_cash, bought_position, apply_buy, apply_fill}
use cryptotradingbot.Portfolio.Fill.Solvent.{IsSolvent}
use cryptotradingbot.Reconcile.Model.{limit_order}
use cryptotradingbot.Execution.Paper.Model.{
  PaperOrder, PaperOrderStatus, PaperOrderRequest, PaperMarket, PaperExecutionConfig, PaperEngine,
  filled,
}
use cryptotradingbot.Execution.Paper.{
  validate_order, cost_exceeds_deployable, marketable, exact_fraction, slippage_adjusted,
  fill_value, fee_on, simulated, market_order_with, limit_order_with, submit_market_order,
  submit_limit_order,
}
use cryptotradingbot.Execution.Paper.Book.{
  restore_executed_order_ids, executed_order_ids, paper_order, reject_order, fill_order,
}
use cryptotradingbot.Execution.Paper.Effect.{
  Call, market_call, limit_call, cancel_call, restore_call, run,
}
use cryptotradingbot.Execution.Paper.Solvent.{IsSane, StaysSolvent, run-StaysSolvent}
use cryptotradingbot.Execution.Paper.Identity.{run-remembers}
use cryptotradingbot.Execution.Paper.Resting.{IsResting, run-IsResting}
use cryptotradingbot.Tests.Data.{units, book}
use cryptotradingbot.Tests.Gate.{in_billionths}

-- A fee of 0.1 %, a slippage of 1 %, and fills of the whole quantity.
abbrev paper_config : PaperExecutionConfig ℤ
paper_config = record {
  fee_fraction = pos 1000000;
  slippage_fraction = pos 10000000;
  fill_fraction = pos 1000000000;
}

abbrev paper_market : PaperMarket
paper_market = record { reference_price = units 30; bid = some (units 29); ask = some (units 30) }

abbrev buy_one : PaperOrderRequest
buy_one = record {
  client_order_id = "p1";
  symbol = "BTC/CAD";
  side = buy;
  order_type = limit_order;
  quantity = units 1;
  limit_price = some (units 30);
  reason = "entry";
  entry_anchor_price = none;
}

abbrev sell_high : PaperOrderRequest
sell_high = record buy_one { client_order_id = "p2"; side = sell; limit_price = some (units 40) }

abbrev new_engine : PaperEngine
new_engine = record { portfolio = book; open_orders = []; all_orders = []; known_executed_ids = [] }

abbrev some_calls : List Call
some_calls =
    limit_call buy_one paper_market 5000
    ∷ limit_call sell_high paper_market 6000
    ∷ market_call sell_high paper_market 6500
    ∷ cancel_call "p2" 7000
    ∷ restore_call ("p0" ∷ [])
    ∷ []

abbrev average_of : Result PaperOrder → Option Money
average_of (ok o) = o.average_price
average_of (err e) = none

-- A BUY limited to 30 fills at 30.3.
fills_above_its_limit :
    average_of
      (submit_limit_order in_billionths paper_config buy_one paper_market 5000 new_engine).0
    ≡ some (pos 3030000000)
unfolding lookup insert base_of quote_of track_peak equity_of add_cash add_cost source_breakdown_of
    deployable_quote quote_cash bought_position apply_buy apply_fill validate_order reject_order
    cost_exceeds_deployable fill_order marketable exact_fraction slippage_adjusted fill_value fee_on
    simulated limit_order_with submit_limit_order paper_order Money.mul Money.half_up Money.div
    Money.mul_fraction ◌+ℤ◌ ◌-ℤ◌ ◌*ℤ◌ quot rem
fills_above_its_limit = refl

-- With a fill of nothing, the order is recorded as FILLED, and the call throws.
abbrev nothing_filled : Result PaperOrder × PaperEngine
nothing_filled =
    submit_market_order in_billionths (record paper_config { fill_fraction = pos 0 }) buy_one
      paper_market 5000 new_engine

abbrev statuses : List PaperOrder → List PaperOrderStatus
statuses [] = []
statuses (o ∷ rest) = o.order_status ∷ statuses rest

recorded_unaccounted :
    (nothing_filled.0 ≡ err bad_quantity)
    × (statuses nothing_filled.1.all_orders ≡ filled ∷ [])
    × (nothing_filled.1.portfolio ≡ book)
unfolding lookup base_of quote_of deployable_quote apply_fill validate_order reject_order
    cost_exceeds_deployable fill_order exact_fraction slippage_adjusted fill_value fee_on simulated
    market_order_with submit_market_order paper_order Money.mul Money.half_up Money.mul_fraction
    ◌+ℤ◌ ◌-ℤ◌ ◌*ℤ◌ quot rem
recorded_unaccounted = (refl, refl, refl)

paper_config-IsSane : IsSane in_billionths paper_config
unfolding ◌-ℤ◌
paper_config-IsSane = record {
  fee = 1000000;
  fee_read = refl;
  fee_part = omega arith;
  left = 990000000;
  left_read = refl;
}

book-IsSolvent : IsSolvent book
unfolding lookup
book-IsSolvent c = ground arith

run-StaysSolvent_example :
    StaysSolvent in_billionths paper_config new_engine
      (run in_billionths paper_config some_calls new_engine)
run-StaysSolvent_example =
    run-StaysSolvent in_billionths paper_config some_calls new_engine paper_config-IsSane
      (omega arith, (omega arith, (omega arith, (tt, (tt, tt))))) book-IsSolvent

p0-given : member "p0" ("p0" ∷ []) ≡ true
unfolding member
p0-given = refl

run-remembers_example :
    member "p0" (
      executed_order_ids (
        run in_billionths paper_config some_calls
          (restore_executed_order_ids ("p0" ∷ []) new_engine)))
    ≡ true
run-remembers_example =
    run-remembers in_billionths paper_config "p0" (restore_call ("p0" ∷ [])) some_calls new_engine
      (refl, p0-given)

new_engine-IsResting : IsResting new_engine
unfolding lookup
new_engine-IsResting = (tt, λ id place e. cc)

run-IsResting_example : IsResting (run in_billionths paper_config some_calls new_engine)
run-IsResting_example =
    run-IsResting in_billionths paper_config some_calls new_engine new_engine-IsResting
