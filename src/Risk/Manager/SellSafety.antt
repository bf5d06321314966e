-- ===== src/Risk/Manager/SellSafety.antt =====
-- risk/RiskManager.ts: an approved SELL stays within the managed position, and no gate on new
-- exposure blocks it.
use cryptotradingbot.Common.{
  ◌≡◌, refl, sym, ◌∙◌, ap, subst, ◌&&◌, inl, inr, Bool-cases, Option, none, some, List, [], ◌∷◌,
  arith, if◌then◌else◌,
}
use cryptotradingbot.Common.Int.{ℤ, pos, ◌<ℤ◌, ◌≤ℤ◌, ltb_ℤ}
use cryptotradingbot.Common.Result.{ok}
use cryptotradingbot.Money
use cryptotradingbot.Money.{Money}
use cryptotradingbot.Portfolio.Model.{Side, sell}
use cryptotradingbot.Risk.Doubles.{Doubles}
use cryptotradingbot.Risk.Model.{
  RiskConfig, RiskContext, MarketInfo, RiskApproval, SellTarget, sell_signal, invalid_sell_target,
  sell_exceeds_managed_position, sell_exceeds_position, no_action, below_min_quantity,
}
use cryptotradingbot.Risk.Judged.{
  Judged, go, reject, throw, call, >>=-go, reject_if-go, call-go, go-injective,
}
use cryptotradingbot.Risk.State.{RiskState, applied_limits_of}
use cryptotradingbot.Risk.Quantity.{
  IsTradable, validate_market_quantity, validate_market_quantity-IsTradable,
}
use cryptotradingbot.Risk.Sell.{
  Sized, evaluate_sell, is_none, least, resolve_sell_target, target_base_of, admit_notional,
  admit_fraction, or_zero,
}
use cryptotradingbot.Risk.Buy.Sizing.{floor_to_increment-le, positive-pos, floored-le}
use cryptotradingbot.Risk.Manager.{approved, evaluate, decision_of, judge, size_of, Ticket}
use cryptotradingbot.Risk.Manager.Approval.{IsGrounded, judge-go, evaluate-approved}

least-le : (b : Money) (qs : List Money) → least b qs ≤ℤ b
unfolding least
least-le b [] = omega arith
least-le b (q ∷ qs) = elim (Bool-cases (ltb_ℤ q b)) [
  | inl e ↦
      let lt : q <ℤ b = ground (arith, e) in
      subst (λ t. least (if t then q else b) qs ≤ℤ b) (sym e) (omega (arith, least-le q qs, lt))
  | inr e ↦ subst (λ t. least (if t then q else b) qs ≤ℤ b) (sym e) (least-le b qs)
]

floor-le : (a tick r : Money) → pos 0 <ℤ a → Money.floor_to_increment a tick ≡ ok r → r ≤ℤ a
floor-le a tick r p h =
    let (n, e, _) = positive-pos a p in rw e (floor_to_increment-le n tick r (rw e at h)).1

module _ {F : Type 0} (d : Doubles F) where
  target_base-le :
      (target : Option (SellTarget F)) (price tick cap_base q : Money)
      → target_base_of d target price tick cap_base ≡ go q
      → q ≤ℤ cap_base
  unfolding target_base_of resolve_sell_target
  target_base-le none price tick cap_base q h = rw (go-injective h) (omega arith)
  target_base-le (some t) price tick cap_base q h =
      let (_, h1) =
        reject_if-go (is_none t.fraction && is_none t.notional) invalid_sell_target _ h in
      let (by_notional, _, h2) = >>=-go (admit_notional d t.notional price tick) _ h1 in
      let (by_fraction, _, h3) = >>=-go (admit_fraction d t.fraction cap_base tick) _ h2 in
      subst (λ x. x ≤ℤ cap_base) (go-injective h3)
        (omega
          (arith, least-le (least cap_base by_notional) by_fraction, least-le cap_base by_notional))

  -- An order that closes exposure.
  pub record IsSafeSell (ctx : RiskContext F) (price : Money) (size : Sized) : Type 0 where
    pub market : MarketInfo F
    pub position : Money
    pub listed : ctx.market_info ≡ some market
    pub located : ctx.current_position ≡ some position
    pub tradable : IsTradable market size.sized_quantity
    pub covered : size.sized_quantity ≤ℤ position
    pub notional_le : size.sized_notional ≤ℤ Money.mul size.sized_quantity price

  evaluate_sell-IsSafeSell :
      (ctx : RiskContext F) (price : Money) (market : MarketInfo F) (position : Money)
      (size : Sized)
      → pos 0 <ℤ price
      → ctx.market_info ≡ some market
      → ctx.current_position ≡ some position
      → evaluate_sell d ctx price market position ≡ go size
      → IsSafeSell ctx price size
  unfolding evaluate_sell
  evaluate_sell-IsSafeSell ctx price market position size hp em el h =
      let (_, h1) =
        reject_if-go (Money.is_zero position && Money.is_positive (or_zero ctx.external_position))
          sell_exceeds_managed_position _ h in
      let (nonzero, h2) = reject_if-go (Money.is_zero position) no_action _ h1 in
      let (nonneg, h3) = reject_if-go (Money.is_negative position) sell_exceeds_position _ h2 in
      let (cap_base, e1, h4) =
        >>=-go (call (Money.floor_to_increment position market.quantity_tick)) _ h3 in
      let (_, h5) = reject_if-go (Money.is_zero cap_base) below_min_quantity _ h4 in
      let (q, e2, h6) =
        >>=-go (target_base_of d ctx.sell_target price market.quantity_tick cap_base) _ h5 in
      let (_, h7) = reject_if-go (Money.is_zero q) below_min_quantity _ h6 in
      let (_, valid, h8) = >>=-go (validate_market_quantity market price q) _ h7 in
      let (r, e3, h9) =
        >>=-go (call (Money.floor_to_increment (Money.mul q price) market.price_tick)) _ h8 in
      let held : pos 0 <ℤ position = ground (arith, nonzero, nonneg) in
      let t = validate_market_quantity-IsTradable market price q valid in
      let fits =
        floor-le position market.quantity_tick cap_base held
          (call-go (Money.floor_to_increment position market.quantity_tick) e1) in
      subst (IsSafeSell ctx price) (go-injective h9) (record {
        market = market;
        position = position;
        listed = em;
        located = el;
        tradable = t;
        covered =
            omega (
              arith,
              fits,
              target_base-le ctx.sell_target price market.quantity_tick cap_base q e2,
            );
        notional_le =
            floored-le q price market.price_tick r (omega (arith, t.positive)) (omega (arith, hp))
              (call-go (Money.floor_to_increment (Money.mul q price) market.price_tick) e3);
      })

  -- Where a SELL is approved, the kill switch is off, the data is fresh and the price known, and its
  -- quantity is positive, on the tick grid, no less than the minimum and no more than the managed
  -- position.
  pub approved_sell_safe :
      (cfg : RiskConfig F) (s : RiskState) (ctx : RiskContext F) (a : RiskApproval F)
      → evaluate d cfg s ctx ≡ ok (approved a)
      → a.side ≡ sell
      → IsGrounded d cfg s ctx sell a.price
        × IsSafeSell ctx a.price
            (record { sized_quantity = a.quantity; sized_notional = a.estimated_notional })
  unfolding size_of
  approved_sell_safe cfg s ctx a h e =
      let (t, h1, es, ep, eq, en) = evaluate-approved d cfg s ctx a h in
      let (g, (market, position, em, el, h2)) = judge-go d cfg s ctx t h1 in
      let side : t.ticket_side ≡ sell = sym es ∙ e in
      let h3 : size_of d sell cfg s ctx t.ticket_price market position ≡ go t.ticket_size =
        subst
          (λ (x : Side). size_of d x cfg s ctx t.ticket_price market position ≡ go t.ticket_size)
          side h2 in
      let safe =
        evaluate_sell-IsSafeSell ctx t.ticket_price market position t.ticket_size g.price_positive
          em el h3 in
      (
        subst (λ (p : Money). IsGrounded d cfg s ctx sell p) (sym ep)
            (subst (λ (x : Side). IsGrounded d cfg s ctx x t.ticket_price) side g),
        rw (ep, eq, en) safe,
      )

  -- The context of the same market and position in an account of which nothing is known.
  abbrev pub without_account : RiskContext F → RiskContext F
  without_account ctx = record ctx {
    quote_balance = none;
    deployable_quote = none;
    portfolio_value = none;
    peak_portfolio_value = none;
    portfolio_exposure = none;
    open_managed_position_count = none;
    realized_pnl_today = none;
    unrealized_pnl_today = none;
  }

  judge_alike :
      (cfg : RiskConfig F) (s : RiskState) (until_ms : Option ℤ) (ctx : RiskContext F)
      → ctx.signal_type ≡ sell_signal
      → judge d cfg (record s { cooldown_until_ms = until_ms }) (without_account ctx)
        ≡ judge d cfg s ctx
  unfolding judge size_of evaluate_sell
  judge_alike cfg s until_ms ctx h = rw h refl

  decided_alike :
      (cfg : RiskConfig F) (s : RiskState) (until_ms : Option ℤ) (ctx : RiskContext F)
      (v : Judged Ticket)
      → decision_of cfg (record s { cooldown_until_ms = until_ms }) (without_account ctx) v
        ≡ decision_of cfg s ctx v
  unfolding decision_of applied_limits_of
  decided_alike cfg s until_ms ctx (go t) = refl
  decided_alike cfg s until_ms ctx (reject why) = refl
  decided_alike cfg s until_ms ctx (throw e) = refl

  -- The decision on a SELL signal depends neither on the cooldown nor on any balance, P&L, peak,
  -- exposure or number of positions, known or not: no loss gate can block an exit.
  pub sell_never_gated :
      (cfg : RiskConfig F) (s : RiskState) (until_ms : Option ℤ) (ctx : RiskContext F)
      → ctx.signal_type ≡ sell_signal
      → evaluate d cfg (record s { cooldown_until_ms = until_ms }) (without_account ctx)
        ≡ evaluate d cfg s ctx
  unfolding evaluate
  sell_never_gated cfg s until_ms ctx h =
      ap (decision_of cfg (record s { cooldown_until_ms = until_ms }) (without_account ctx))
        (judge_alike cfg s until_ms ctx h)
      ∙ decided_alike cfg s until_ms ctx (judge d cfg s ctx)
