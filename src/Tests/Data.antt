-- ===== src/Tests/Data.antt =====
-- The portfolios that the tests run the code of portfolio/Portfolio.ts on.
use cryptotradingbot.Common.{◌*◌, Bool, ℕ, none, some, [], ◌∷◌}
use cryptotradingbot.Common.Int.{pos}
use cryptotradingbot.Common.Result.{Result, ok, err}
use cryptotradingbot.Money.{Money}
use cryptotradingbot.Portfolio.Model.{
  Portfolio, OrderReservation, Position, Fill, active, external_authorized, quote,
  operator_attested, buy, ExchangeEvidenceSnapshot, status,
}
use cryptotradingbot.Portfolio.Settle.Intent.{ManualOrder}
use cryptotradingbot.Portfolio.Settle.Attestation.{AttestedOrder}

-- An amount of whole units.
abbrev pub units : ℕ → Money
units n = pos (n * 100000000)

abbrev pub held_btc : Position
held_btc = record {
  symbol = "BTC/CAD";
  quantity = units 3;
  average_entry_price = units 100;
  cost_basis = units 300;
  realized_pnl = pos 0;
  fees_paid = pos 0;
  entry_anchor_price = none;
  source = external_authorized;
  source_quantities = some (record { bot_quantity = units 1; external_quantity = units 2 });
}

abbrev pub reservation : OrderReservation
reservation = record {
  order_id = "o1";
  currency = "CAD";
  amount = units 220;
  remaining = units 220;
  status = active;
}

-- 1000 in cash of which 220 is reserved for the order o1, and three coins.
abbrev pub book : Portfolio
book = record {
  cash = ("CAD", units 1000) ∷ [];
  positions = ("BTC/CAD", held_btc) ∷ [];
  peak_equity = units 1300;
  realized_pnl = pos 0;
  daily_realized_pnl = pos 0;
  daily_realized_day_key = none;
  total_fees = pos 0;
  external_snapshot = ("ETH/CAD", units 5) ∷ [];
  authorized_external = [];
  reserved = ("CAD", units 220) ∷ [];
  order_reservations = ("o1", reservation) ∷ [];
  applied_executions = [];
  manual_settlements = [];
  live_order_attestations = [];
}

-- The portfolio that an operation returns, or the one it started from.
abbrev pub after : Portfolio → Result Portfolio → Portfolio
after m (ok n) = n
after m (err e) = m

abbrev pub two_coins : Fill
two_coins = record {
  price = units 100;
  quantity = units 2;
  fee = units 1;
  fee_currency = quote;
  timestamp_ms = some 1000;
  execution_id = some "x1";
}

abbrev pub manual_buy : ManualOrder
manual_buy = record {
  intent_id = "o1";
  symbol = "BTC/CAD";
  side = buy;
  quantity = units 2;
  price = units 100;
  fee = units 1;
  order_id = some "0077";
  evidence_source = "operator";
  exchanged_validated = Bool.false;
  settlement_mode = operator_attested;
  provenance_proof = Bool.false;
  operator_confirmed_by = some "alice";
  executed_at_ms = some 1000;
}

abbrev pub evidence : ExchangeEvidenceSnapshot
evidence = record {
  order_id = "77";
  symbol = "BTC/CAD";
  side = buy;
  order_type = "limit";
  order_status = "FILLED";
  quantity = units 2;
  filled_quantity = units 2;
  average_price = some (units 100);
  limit_price = none;
  fee = units 1;
  fee_currency = quote;
  reason = "";
  created_at_ms = none;
  updated_at_ms = none;
  order_evidence_source = status;
  observed_account_trades = [];
  observed_balances = [];
  read_at_ms = 900;
}

abbrev pub attested_buy : AttestedOrder
attested_buy = record {
  client_order_id = "o1";
  symbol = "BTC/CAD";
  side = buy;
  order_quantity = units 2;
  exchange_order_id = "77";
  exchange_status = "FILLED";
  attested_filled_quantity = units 2;
  attested_average_price = units 100;
  fee = units 1;
  fee_currency = quote;
  evidence_source = "operator";
  accounting_authority = "operator_attestation";
  provenance_proof = Bool.false;
  operator_confirmed_by = "alice";
  attested_at_ms = 1000;
  exchange_read_at_ms = 900;
  exchange_evidence = evidence;
}
