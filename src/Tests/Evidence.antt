-- ===== src/Tests/Evidence.antt =====
-- reconcile/ on an order, an execution and a reconciliation.
use cryptotradingbot.Common.{◌≡◌, refl, some, none, String, [], ◌∷◌, false, true, arith}
use cryptotradingbot.Common.Int.{pos}
use cryptotradingbot.Common.Dict.{Dict, lookup}
use cryptotradingbot.Portfolio.Model.{buy, sell, quote}
use cryptotradingbot.Portfolio.Ids.{
  same_external_order_id, same_order, is_number, number, number_from, only_digits,
}
use cryptotradingbot.Reconcile.Model.{
  Order, AccountTrade, limit_order, open_order, filled, submitted, canceled, complete,
  ReconciliationResult, reconciliation_required, operator_required, confirmed, release,
}
use cryptotradingbot.Reconcile.Classify.{
  classify_order, analyze_completeness, filled_needs_operator, release_is_safe,
  reservation_disposition, IsEnded, IsReleasable, ReservationDecisionInput,
}
use cryptotradingbot.Reconcile.Attribution.{IsAccountable, IsExecutionOf}
use cryptotradingbot.Reconcile.Correlate.{
  correlate_execution, is_unusable, matches_order, matching, correlate_execution-proven,
}
use cryptotradingbot.Reconcile.Gate.{LivePreTradeAction, live_pre_trade_gate}
use cryptotradingbot.Reconcile.Gate.Needs.{IsClear}
use cryptotradingbot.Reconcile.Gate.Clear.{live_pre_trade_gate-IsClear}
use cryptotradingbot.Common.{List}
use cryptotradingbot.Common.Dict.{All}
use cryptotradingbot.Money.{Money}
use cryptotradingbot.Portfolio.Model.{Balance}
use cryptotradingbot.Reconcile.Balances.{reconcile_balances}
use cryptotradingbot.Reconcile.Balances.Agreement.{
  IsMatched, AllExpected, reconcile_balances-agreement,
}
use cryptotradingbot.Tests.Data.{units}

abbrev pub order : Order
order = record {
  client_order_id = "c1";
  exchange_order_id = some "077";
  symbol = "BTC/CAD";
  side = buy;
  order_type = limit_order;
  order_status = open_order;
  quantity = units 2;
  filled_quantity = pos 0;
  average_price = none;
  price = some (units 100);
  fills = [];
  fee = pos 0;
  fee_currency = quote;
  reason = "";
  created_at_ms = none;
  updated_at_ms = none;
}

abbrev orders : Dict Order
orders = ("c1", order) ∷ []

abbrev pub trade : AccountTrade
trade = record {
  execution_id = some "x1";
  trade_id = none;
  order_id = some "77";
  trade_client_order_id = none;
  trade_symbol = some "BTC/CAD";
  instrument_id = none;
  account_id = none;
  sub_account_id = none;
  side = buy;
  quantity = units 1;
  remaining_quantity = units 1;
  price = units 100;
  value = units 100;
  trade_time_ms = none;
  fee = pos 0;
  fee_product_id = none;
  order_originator = none;
}

correlate_execution-proven_example :
    IsAccountable trade
    × ((o : Order) × (lookup "c1" orders ≡ some o) × IsExecutionOf trade o)
    × ((other : String) (o : Order)
        → lookup other orders ≡ some o
        → IsExecutionOf trade o
        → other ≡ "c1")
unfolding correlate_execution is_unusable matching matches_order same_external_order_id same_order
    is_number number number_from only_digits lookup
correlate_execution-proven_example =
    correlate_execution-proven trade orders "c1" (refl, tt) refl refl

filled_needs_operator_example :
    classify_order (record {
      local_status = submitted;
      exchange_status = some filled;
      exchange_executed_quantity = some (units 2);
      proven_executed = units 2;
      completeness = analyze_completeness (some (units 2)) (units 2);
    })
    ≡ operator_required
filled_needs_operator_example =
    filled_needs_operator submitted (units 2) (units 2) refl (omega arith)

abbrev canceled_order : ReservationDecisionInput
canceled_order = record {
  has_reservation = true;
  exchange_status = some canceled;
  proven_executed = pos 0;
  accounting_complete = false;
}

release_is_safe_example :
    (reservation_disposition canceled_order ≡ release → IsReleasable canceled_order)
    × (IsReleasable canceled_order → reservation_disposition canceled_order ≡ release)
    × (IsEnded canceled_order.exchange_status
        → canceled_order.proven_executed ≡ pos 0
        → classify_order (record {
          local_status = submitted;
          exchange_status = canceled_order.exchange_status;
          exchange_executed_quantity = none;
          proven_executed = canceled_order.proven_executed;
          completeness = complete;
        })
          ≡ confirmed)
release_is_safe_example = release_is_safe canceled_order submitted none complete

abbrev result : ReconciliationResult
result = record {
  status = reconciliation_required;
  reasons = [];
  read_failures = [];
  order_findings = [];
  execution_findings = [];
  reservation_findings = [];
  balance_findings =
      record { currency = "CAD"; expected = none; observed = some (units 5); mismatch = true } ∷ [];
  operator_findings = [];
}

abbrev action : LivePreTradeAction
action = record {
  side = sell;
  symbol = "BTC/CAD";
  quote_currencies = "CAD" ∷ [];
  managed_quote_deployable = none;
}

live_pre_trade_gate-IsClear_example :
    ((live_pre_trade_gate result action).allowed ≡ true → IsClear result action)
    × (IsClear result action → (live_pre_trade_gate result action).allowed ≡ true)
live_pre_trade_gate-IsClear_example = live_pre_trade_gate-IsClear result action

abbrev balances : List Balance
balances =
    record { currency = "CAD"; total = units 700; available = units 650; held = units 50 } ∷ []

abbrev expected : Dict Money
expected = ("CAD", units 650) ∷ []

reconcile_balances-agreement_example :
    (reconcile_balances expected balances (pos 1) ≡ []
      → All (IsMatched balances (pos 1)) expected × AllExpected expected balances)
    × (All (IsMatched balances (pos 1)) expected × AllExpected expected balances
        → reconcile_balances expected balances (pos 1) ≡ [])
reconcile_balances-agreement_example = reconcile_balances-agreement expected balances (pos 1)
