-- ===== src/Risk/Manager/BuySafety.antt =====
-- risk/RiskManager.ts: an approved BUY is funded, tradable and under every cap.
use cryptotradingbot.Common.{◌≡◌, sym, ◌∙◌, subst, ◌&&◌, some, arith}
use cryptotradingbot.Common.Int.{pos, ◌+ℤ◌, ◌<ℤ◌, ◌≤ℤ◌, ltb_ℤ}
use cryptotradingbot.Common.Result.{ok}
use cryptotradingbot.Money
use cryptotradingbot.Money.{Money}
use cryptotradingbot.Portfolio.Model.{Side, buy}
use cryptotradingbot.Risk.Doubles.{Doubles}
use cryptotradingbot.Risk.Model.{
  RiskConfig, RiskContext, MarketInfo, RiskApproval, unknown_portfolio_value, unknown_exposure,
  unknown_balance, insufficient_balance,
}
use cryptotradingbot.Risk.Judged.{
  go, or_reject, call, >>=-go, reject_if-go, or_reject-go, call-go, go-injective,
}
use cryptotradingbot.Risk.State.{RiskState}
use cryptotradingbot.Risk.Quantity.{IsTradable}
use cryptotradingbot.Risk.Sell.{Sized, is_none}
use cryptotradingbot.Risk.Buy.{
  evaluate_buy, compute_buy_caps, size_buy, check_funding, check_gates, estimated_fee, fee_rate,
  funding_of,
}
use cryptotradingbot.Risk.Buy.Caps.{IsUnderCaps, compute_buy_caps-IsUnderCaps}
use cryptotradingbot.Risk.Buy.Sizing.{size_buy-ok}
use cryptotradingbot.Risk.Buy.Gates.{IsCalm, check_gates-IsCalm, reject_if-passed}
use cryptotradingbot.Risk.Manager.{approved, evaluate, size_of}
use cryptotradingbot.Risk.Manager.Approval.{IsGrounded, judge-go, evaluate-approved}

module _ {F : Type 0} (d : Doubles F) where
  -- The funds cover the notional and the fee that is estimated on it.
  pub record IsFunded (ctx : RiskContext F) (market : MarketInfo F) (notional : Money)
      : Type 0 where
    pub fee : Money
    pub funds : Money
    pub fee_estimated : estimated_fee d notional (fee_rate market.fee_info) ≡ ok fee
    pub funds_known : funding_of ctx.deployable_quote ctx.quote_balance ≡ some funds
    pub covered : notional +ℤ fee ≤ℤ funds

  check_funding-IsFunded :
      (ctx : RiskContext F) (market : MarketInfo F) (notional : Money)
      → check_funding d ctx market notional ≡ go tt
      → IsFunded ctx market notional
  unfolding check_funding
  check_funding-IsFunded ctx market notional h =
      let (fee, e1, h1) = >>=-go (call (estimated_fee d notional (fee_rate market.fee_info))) _ h in
      let (funds, e2, h2) =
        >>=-go (or_reject (funding_of ctx.deployable_quote ctx.quote_balance) unknown_balance) _
          h1 in
      let short = reject_if-passed (ltb_ℤ funds (Money.add notional fee)) insufficient_balance h2 in
      record {
        fee = fee;
        funds = funds;
        fee_estimated = call-go (estimated_fee d notional (fee_rate market.fee_info)) e1;
        funds_known =
            or_reject-go (funding_of ctx.deployable_quote ctx.quote_balance) unknown_balance e2;
        covered = ground (arith, short);
      }

  -- An order that opens exposure.
  pub record IsSafeBuy (cfg : RiskConfig F) (s : RiskState) (ctx : RiskContext F) (price : Money)
      (size : Sized) : Type 0 where
    pub market : MarketInfo F
    pub position : Money
    pub portfolio_value : Money
    pub exposure : Money
    pub listed : ctx.market_info ≡ some market
    pub located : ctx.current_position ≡ some position
    pub valued : ctx.portfolio_value ≡ some portfolio_value
    pub measured : ctx.portfolio_exposure ≡ some exposure
    pub calm : IsCalm d cfg s ctx portfolio_value
    pub tradable : IsTradable market size.sized_quantity
    pub under_caps :
        IsUnderCaps d cfg portfolio_value exposure price position
          (Money.mul size.sized_quantity price)
    pub notional_le : size.sized_notional ≤ℤ Money.mul size.sized_quantity price
    pub funded : IsFunded ctx market size.sized_notional

  evaluate_buy-IsSafeBuy :
      (cfg : RiskConfig F) (s : RiskState) (ctx : RiskContext F) (price : Money)
      (market : MarketInfo F) (position : Money) (size : Sized)
      → pos 0 <ℤ price
      → ctx.market_info ≡ some market
      → ctx.current_position ≡ some position
      → evaluate_buy d cfg s ctx price market position ≡ go size
      → IsSafeBuy cfg s ctx price size
  unfolding evaluate_buy
  evaluate_buy-IsSafeBuy cfg s ctx price market position size hp em ep h =
      let (pv, e1, h1) = >>=-go (or_reject ctx.portfolio_value unknown_portfolio_value) _ h in
      let (exposure, e2, h2) = >>=-go (or_reject ctx.portfolio_exposure unknown_exposure) _ h1 in
      let (_, h3) =
        reject_if-go (is_none ctx.quote_balance && is_none ctx.deployable_quote) unknown_balance _
          h2 in
      let (_, gates, h4) = >>=-go (check_gates d cfg s ctx pv) _ h3 in
      let (cap, e5, h5) = >>=-go (compute_buy_caps d cfg pv exposure price position) _ h4 in
      let (sz, e6, h6) = >>=-go (size_buy market price cap) _ h5 in
      let (_, e7, h7) = >>=-go (check_funding d ctx market sz.sized_notional) _ h6 in
      let (tradable, cost, notional) = size_buy-ok market price cap sz hp e6 in
      subst (IsSafeBuy cfg s ctx price) (go-injective h7) (record {
        market = market;
        position = position;
        portfolio_value = pv;
        exposure = exposure;
        listed = em;
        located = ep;
        valued = or_reject-go ctx.portfolio_value unknown_portfolio_value e1;
        measured = or_reject-go ctx.portfolio_exposure unknown_exposure e2;
        calm = check_gates-IsCalm d cfg s ctx pv gates;
        tradable = tradable;
        under_caps = compute_buy_caps-IsUnderCaps d cfg pv exposure price position _ cap e5 cost;
        notional_le = notional;
        funded = check_funding-IsFunded ctx market sz.sized_notional e7;
      })

  -- The kill switch is off, the data is fresh and the price known where a BUY is approved, and its
  -- quantity is positive, on the tick grid and no less than the minimum, costs at most what each cap
  -- that is set leaves, passed the loss, drawdown, cooldown and open-position gates, and its notional
  -- with the estimated fee is covered by the funds.
  pub approved_buy_safe :
      (cfg : RiskConfig F) (s : RiskState) (ctx : RiskContext F) (a : RiskApproval F)
      → evaluate d cfg s ctx ≡ ok (approved a)
      → a.side ≡ buy
      → IsGrounded d cfg s ctx buy a.price
        × IsSafeBuy cfg s ctx a.price
            (record { sized_quantity = a.quantity; sized_notional = a.estimated_notional })
  unfolding size_of
  approved_buy_safe cfg s ctx a h e =
      let (t, h1, es, ep, eq, en) = evaluate-approved d cfg s ctx a h in
      let (g, (market, position, em, el, h2)) = judge-go d cfg s ctx t h1 in
      let side : t.ticket_side ≡ buy = sym es ∙ e in
      let h3 : size_of d buy cfg s ctx t.ticket_price market position ≡ go t.ticket_size =
        subst
          (λ (x : Side). size_of d x cfg s ctx t.ticket_price market position ≡ go t.ticket_size)
          side h2 in
      let safe =
        evaluate_buy-IsSafeBuy cfg s ctx t.ticket_price market position t.ticket_size
          g.price_positive em el h3 in
      (
        subst (λ (p : Money). IsGrounded d cfg s ctx buy p) (sym ep)
            (subst (λ (x : Side). IsGrounded d cfg s ctx x t.ticket_price) side g),
        rw (ep, eq, en) safe,
      )
