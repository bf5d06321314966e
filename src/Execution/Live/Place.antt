-- ===== src/Execution/Live/Place.antt =====
-- execution/LiveExecutionEngine.ts: the gate, and the ways into a submission: `place`, and `prepare`
-- followed by `placePrepared`.
pub mod Authorized
pub mod Prepared
use Prim.Native.Char.{code}
use Prim.Native.String.{◌++◌ as str_append}
use cryptotradingbot.Common.{
  ℕ, Bool, true, false, not, ◌&&◌, ◌||◌, Option, none, some, [], String, str_eq, ◌==◌,
  if◌then◌else◌,
}
use cryptotradingbot.Common.Int.{ℤ}
use cryptotradingbot.Common.Dict.{Dict}
use cryptotradingbot.Common.Result.{Result, ok, err}
use cryptotradingbot.Money
use cryptotradingbot.Money.{Money}
use cryptotradingbot.Portfolio.Model.{Side, buy, sell, same_side, unknown}
use cryptotradingbot.Reconcile.Model.{Order, OrderType, limit_order, market_order, order_rejected}
use cryptotradingbot.Risk.Doubles.{Doubles}
use cryptotradingbot.Risk.Model.{RiskConfig, RiskContext, RiskApproval, RiskRejection}
use cryptotradingbot.Risk.State.{RiskState}
use cryptotradingbot.Risk.Manager.{RiskDecision, approved, rejected, evaluate}
use cryptotradingbot.Execution.Authorization.{
  ControlledLiveScope, ControlledLiveAuthorization, is_controlled_live_authorization,
}
use cryptotradingbot.Execution.Session.{
  AutonomousLiveSession, SessionState, is_autonomous_live_session,
}
use cryptotradingbot.Execution.Live.Model
use cryptotradingbot.Execution.Live.Model.{
  OrderTif, ioc, NewOrder, LiveConfig, Replies, Engine, LiveOrderResult, LiveError, Attempt, done,
  thrown, ◌>>=◌, ◌>>◌, throw_if, lift, not_live_mode, funds_not_acknowledged, kill_switch_on,
  invalid_session, invalid_authorization, placement_unsupported, not_limit, price_required, not_ioc,
  build_recorded,
}
use cryptotradingbot.Execution.Live.Validate.{is_limit, is_ioc, is_given_session, positive_price}
use cryptotradingbot.Execution.Live.Submit.{refused, submit}

-- The registries of the process, and the time at the gate.
pub record Capabilities : Type 0 where
  pub sessions : Dict SessionState
  pub issued_scopes : Dict ControlledLiveScope
  pub at_ms : ℤ

-- LiveOrderIntent, whose type may be left out by an untyped caller.
pub record LiveOrderIntent : Type 0 where
  pub reason : String
  pub order_type : Option OrderType
  pub price : Option Money
  pub tif : Option OrderTif

-- PreparedLiveOrder
pub record PreparedLiveOrder (F : Type 0) : Type 0 where
  pub order : NewOrder
  pub approval : RiskApproval F
  pub intent : LiveOrderIntent

-- `symbol.replace('/', '')`: the first slash goes.
unfoldable pub without_slash : String → String
without_slash String.[] = String.[]
without_slash (String.◌∷◌ c s) = if code c == b'/' then s else String.◌∷◌ c (without_slash s)

-- `live-<symbol>-<uuid>`
unfoldable pub next_client_order_id : String → String → String
next_client_order_id symbol uuid =
    str_append "live-" (str_append (without_slash symbol) (str_append "-" uuid))

abbrev pub is_limit_kind : Option OrderType → Bool
is_limit_kind none = false
is_limit_kind (some t) = is_limit t

-- `intent.tif ?? (session ? 'IOC' : undefined)`
abbrev pub tif_or : Option OrderTif → Bool → Option OrderTif
tif_or (some t) in_session = some t
tif_or none true = some ioc
tif_or none false = none

abbrev pub side_or_buy : Option Side → Side
side_or_buy none = buy
side_or_buy (some s) = s

abbrev pub has_price : Option Money → Money → Bool
has_price none price = false
has_price (some p) price = Money.equals p price

module _ {F : Type 0} where
  -- The constructor's and every entry's check.
  unfoldable pub assert_gate : LiveConfig F → Capabilities → Attempt (Unit {0})
  assert_gate cfg c = do
    throw_if (not cfg.trading_mode_live) not_live_mode
    throw_if (not cfg.real_funds_at_risk) funds_not_acknowledged
    throw_if cfg.kill_switch kill_switch_on
    elim cfg.autonomous_live_session [
      | some session ↦
          throw_if (not (is_autonomous_live_session c.sessions session c.at_ms)) invalid_session
      | none ↦ elim cfg.controlled_live_authorization [
        | some auth ↦
            throw_if (not (is_controlled_live_authorization c.issued_scopes auth))
              invalid_authorization
        | none ↦ throw_if (not cfg.supports_order_placement) placement_unsupported
      ]
    ]

  -- The order is built from what the risk manager approved, at the intent's price.
  unfoldable pub order_from_approval :
      LiveConfig F → String → RiskApproval F → LiveOrderIntent → String → Attempt NewOrder
  order_from_approval cfg symbol approval intent uuid = do
    throw_if (not (is_limit_kind intent.order_type)) not_limit
    price ← positive_price intent.price
    let tif = tif_or intent.tif (is_given_session cfg.autonomous_live_session)
    throw_if (is_given_session cfg.autonomous_live_session && not (is_ioc tif)) not_ioc
    done (record {
      symbol = symbol;
      side = approval.side;
      order_type = limit_order;
      quantity = approval.quantity;
      price = some price;
      tif = tif;
      client_order_id = next_client_order_id symbol uuid;
      reason = intent.reason;
    })

  -- `riskRejected`, less the text that it adds to the reason. Nothing is written.
  unfoldable pub risk_rejected_result :
      String → RiskRejection F → String → String → ℕ → LiveOrderResult
  risk_rejected_result symbol rejection reason uuid now = record {
    order = record {
      client_order_id = next_client_order_id symbol uuid;
      exchange_order_id = none;
      symbol = symbol;
      side = side_or_buy rejection.side;
      order_type = market_order;
      order_status = order_rejected;
      quantity = Money.zero;
      filled_quantity = Money.zero;
      average_price = none;
      price = none;
      fills = [];
      fee = Money.zero;
      fee_currency = unknown;
      reason = reason;
      created_at_ms = some now;
      updated_at_ms = some now;
    };
    unknown_outcome = false;
  }

  unfoldable pub same_transaction : RiskApproval F → RiskApproval F → Bool
  same_transaction a b =
      str_eq a.symbol b.symbol
      && same_side a.side b.side
      && Money.equals a.quantity b.quantity
      && Money.equals a.price b.price

  unfoldable pub prepared_matches_approval : NewOrder → RiskApproval F → Bool
  prepared_matches_approval order approval =
      str_eq order.symbol approval.symbol
      && same_side order.side approval.side
      && is_limit order.order_type
      && has_price order.price approval.price
      && Money.equals order.quantity approval.quantity

module _ {F : Type 0} (d : Doubles F) (cfg : LiveConfig F) (risk : RiskConfig F)
    (rs : RiskState) where
  unfoldable pub submit_built :
      Replies F → Attempt NewOrder → Engine → Attempt LiveOrderResult × Engine
  submit_built r (thrown e) s = (thrown e, s)
  submit_built r (done order) s = submit d cfg r order s

  unfoldable pub place_decided :
      Result (RiskDecision F)
      → Replies F
      → RiskContext F
      → LiveOrderIntent
      → String
      → Engine
      → Attempt LiveOrderResult × Engine
  place_decided (err e) r ctx intent uuid s = (thrown (Model.bad_amount e), s)
  place_decided (ok (rejected why)) r ctx intent uuid s =
      (done (risk_rejected_result ctx.symbol why intent.reason uuid r.created_at), s)
  place_decided (ok (approved a)) r ctx intent uuid s =
      submit_built r (order_from_approval cfg ctx.symbol a intent uuid) s

  unfoldable pub place :
      Capabilities
      → Replies F
      → RiskContext F
      → LiveOrderIntent
      → String
      → Engine
      → Attempt LiveOrderResult × Engine
  place c r ctx intent uuid s = elim (assert_gate cfg c) [
    | thrown e ↦ (thrown e, s)
    | done _ ↦ place_decided (evaluate d risk rs ctx) r ctx intent uuid s
  ]

  unfoldable pub prepare_decided :
      Result (RiskDecision F)
      → RiskContext F
      → LiveOrderIntent
      → String
      → Attempt (PreparedLiveOrder F)
  prepare_decided (err e) ctx intent uuid = thrown (Model.bad_amount e)
  prepare_decided (ok (rejected why)) ctx intent uuid = thrown (Model.risk_rejected why.reason)
  prepare_decided (ok (approved a)) ctx intent uuid = do
    order ← order_from_approval cfg ctx.symbol a intent uuid
    done (record { order = order; approval = a; intent = intent })

  unfoldable pub prepare :
      Capabilities → RiskContext F → LiveOrderIntent → String → Attempt (PreparedLiveOrder F)
  prepare c ctx intent uuid = do
    assert_gate cfg c
    prepare_decided (evaluate d risk rs ctx) ctx intent uuid

  unfoldable pub place_prepared_decided :
      Result (RiskDecision F)
      → Replies F
      → RiskContext F
      → PreparedLiveOrder F
      → String
      → Engine
      → Attempt LiveOrderResult × Engine
  place_prepared_decided (err e) r ctx p uuid s = (thrown (Model.bad_amount e), s)
  place_prepared_decided (ok (rejected why)) r ctx p uuid s =
      (done (risk_rejected_result ctx.symbol why p.intent.reason uuid r.created_at), s)
  place_prepared_decided (ok (approved a)) r ctx p uuid s =
      if not (same_transaction a p.approval) || not (prepared_matches_approval p.order a)
      then (done (refused p.order r.created_at), s)
      else submit d cfg r p.order s

  unfoldable pub place_prepared :
      Capabilities
      → Replies F
      → RiskContext F
      → PreparedLiveOrder F
      → String
      → Engine
      → Attempt LiveOrderResult × Engine
  place_prepared c r ctx p uuid s = elim (assert_gate cfg c) [
    | thrown e ↦ (thrown e, s)
    | done _ ↦ place_prepared_decided (evaluate d risk rs ctx) r ctx p uuid s
  ]
