-- ===== src/Execution/Live/Model.antt =====
-- execution/LiveExecutionEngine.ts: the orders, the configuration, what the outside answers during a
-- call, and the state that a call leaves. `F` is the type of the fractions.
use cryptotradingbot.Common.{
  ◌≡◌, ◌⊎◌, inl, inr, refl, ℕ, Bool, true, false, Option, none, some, List, [], ◌∷◌, String,
}
use cryptotradingbot.Common.Dict.{Dict, insert}
use cryptotradingbot.Common.Result.{Result, Error, ok, err}
use cryptotradingbot.Money
use cryptotradingbot.Money.{Money}
use cryptotradingbot.Portfolio.Model.{Portfolio, Side, Balance, unknown}
use cryptotradingbot.Reconcile.Model.{Order, OrderStatus, OrderType}
use cryptotradingbot.Risk.Model.{MarketInfo, FeeInfo, RiskReason}
use cryptotradingbot.Execution.Authorization.{ControlledLiveAuthorization}
use cryptotradingbot.Execution.Session.{AutonomousLiveSession}

-- order.ts: OrderTif
pub data OrderTif : Type 0 where
  gtc ioc fok : OrderTif

-- order.ts: NewOrder
pub record NewOrder : Type 0 where
  pub symbol : String
  pub side : Side
  pub order_type : OrderType
  pub quantity : Money
  pub price : Option Money
  pub tif : Option OrderTif
  pub client_order_id : String
  pub reason : String

-- What is thrown: a LiveGateError by its cause, an error of the ledger, of an amount or of the exchange.
pub data LiveError : Type 0 where
  not_live_mode funds_not_acknowledged kill_switch_on : LiveError
  invalid_session invalid_authorization placement_unsupported : LiveError
  not_limit not_ioc quantity_not_positive above_max_base off_quantity_grid below_min_base :
      LiveError
  price_required off_price_grid below_min_quote above_max_quote : LiveError
  no_reference_price insufficient_quote insufficient_base unresolved_exists : LiveError
  risk_rejected : RiskReason → LiveError
  ledger_corrupt save_failed : LiveError
  bad_amount : Error → LiveError
  timeout network invalid_response unknown_order_outcome order_rejected other_error : LiveError

-- A call that returns or throws.
pub data Attempt (A : Type 0) : Type 0 where
  done : A → Attempt A
  thrown : LiveError → Attempt A

infixl 5 ◌>>=◌ ◌>>◌
abbrev pub ◌>>=◌ : {A B : Type 0} → Attempt A → (A → Attempt B) → Attempt B
done a >>= next = next a
thrown e >>= next = thrown e

abbrev pub ◌>>◌ : {B : Type 0} → Attempt (Unit {0}) → Attempt B → Attempt B
check >> rest = check >>= λ _. rest

abbrev pub throw_if : Bool → LiveError → Attempt (Unit {0})
throw_if true e = thrown e
throw_if false e = done tt

pub Attempt-cases :
    {A : Type 0} (m : Attempt A) → ((e : LiveError) × (m ≡ thrown e)) ⊎ ((a : A) × (m ≡ done a))
Attempt-cases (done a) = inr (a, refl)
Attempt-cases (thrown e) = inl (e, refl)

-- Inversion of a call that returned.
pub >>=-eq-done :
    {A B : Type 0} (m : Attempt A) (next : A → Attempt B) {b : B}
    → (m >>= next) ≡ done b
    → (a : A) × (m ≡ done a) × (next a ≡ done b)
>>=-eq-done (done a) next h = (a, refl, h)
>>=-eq-done (thrown e) next h = cc

pub throw_if-done :
    {B : Type 0} (b : Bool) (e : LiveError) (rest : Attempt B) {final : B}
    → (throw_if b e >> rest) ≡ done final
    → (b ≡ false) × (rest ≡ done final)
throw_if-done true e rest h = cc
throw_if-done false e rest h = (refl, h)

-- An operation on amounts that may throw.
abbrev pub lift : {A : Type 0} → Result A → Attempt A
lift (ok a) = done a
lift (err e) = thrown (bad_amount e)

-- LiveExecutionConfig, with what of the adapter is fixed. `guards_managed_state` and `reserves_quote`
-- say whether the hooks of liveHooks.ts are given, the latter with the market's fees.
pub record LiveConfig (F : Type 0) : Type 0 where
  pub trading_mode_live : Bool
  pub real_funds_at_risk : Bool
  pub kill_switch : Bool
  pub client_order_id_is_unique : Bool
  pub max_live_quote_notional : Money
  pub max_live_base_quantity : Money
  pub controlled_live_authorization : Option ControlledLiveAuthorization
  pub autonomous_live_session : Option AutonomousLiveSession
  pub supports_order_placement : Bool
  pub guards_managed_state : Bool
  pub reserves_quote : Bool
  pub hook_fees : Option (FeeInfo F)

-- The managed-state file as it loads.
pub data ManagedFile : Type 0 where
  loaded corrupt missing unusable : ManagedFile

pub record PlaceOrderResult : Type 0 where
  pub exchange_order_id : Option String
  pub unknown_outcome : Bool

-- What the outside answers during one submission: the ledger and the managed state on disk (whether
-- they load, and whether each write succeeds), the exchange, and the clock.
pub record Replies (F : Type 0) : Type 0 where
  pub ledger_readable : Bool
  pub market : Attempt (MarketInfo F)
  pub balances : Attempt (List Balance)
  pub ticker_last : Attempt (Option Money)
  pub managed_file : ManagedFile
  pub reserve_saved : Bool
  pub release_saved : Bool
  pub created_saved : Bool
  pub placed : Attempt PlaceOrderResult
  pub outcome_saved : Bool
  pub fallback_saved : Bool
  pub created_at : ℕ
  pub outcome_at : ℕ
  pub fallback_at : ℕ

-- What was written, and what the exchange was sent.
pub data Event : Type 0 where
  recorded : Order → Event
  sent : NewOrder → Event
  reserved_quote : NewOrder → Event
  released_quote : NewOrder → Event

-- The order ledger, the managed portfolio on disk, and the events, the latest first.
pub record Engine : Type 0 where
  pub orders : Dict Order
  pub managed : Portfolio
  pub events : List Event

-- LiveOrderResult, less its message.
pub record LiveOrderResult : Type 0 where
  pub order : Order
  pub unknown_outcome : Bool

-- `buildRecorded`, and `buildRejected` less the text that it adds to the reason.
unfoldable pub build_recorded : NewOrder → OrderStatus → Option String → ℕ → Order
build_recorded order status exchange_order_id now = record {
  client_order_id = order.client_order_id;
  exchange_order_id = exchange_order_id;
  symbol = order.symbol;
  side = order.side;
  order_type = order.order_type;
  order_status = status;
  quantity = order.quantity;
  filled_quantity = Money.zero;
  average_price = none;
  price = order.price;
  fills = [];
  fee = Money.zero;
  fee_currency = unknown;
  reason = order.reason;
  created_at_ms = some now;
  updated_at_ms = some now;
}

-- `store.save(order)` where the write succeeds.
unfoldable pub saved : Order → Engine → Engine
saved o s = record s {
  orders = insert o.client_order_id o s.orders;
  events = recorded o ∷ s.events;
}
