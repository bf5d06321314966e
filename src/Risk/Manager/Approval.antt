-- ===== src/Risk/Manager/Approval.antt =====
-- risk/RiskManager.ts: what an approval has passed.
use cryptotradingbot.Common.{◌≡◌, refl, subst, false, not, some, arith}
use cryptotradingbot.Common.Int.{pos, ◌<ℤ◌}
use cryptotradingbot.Common.Result.{ok}
use cryptotradingbot.Money
use cryptotradingbot.Money.{Money}
use cryptotradingbot.Portfolio.Model.{Side}
use cryptotradingbot.MarketData.Freshness.{
  fresh, unfresh, evaluate_freshness, FreshnessCheck, IsFresh, evaluate_freshness-IsFresh,
}
use cryptotradingbot.Risk.Doubles.{Doubles}
use cryptotradingbot.Risk.Model.{
  RiskConfig, RiskContext, MarketInfo, RiskApproval, signal_to_order_side, kill_switch_active,
  no_action, unknown_market_info, unknown_price, unknown_position, stale_market_data,
}
use cryptotradingbot.Risk.Judged.{
  Judged, go, reject, throw, or_reject, >>=-go, reject_if-go, or_reject-go, go-injective,
}
use cryptotradingbot.Risk.State.{RiskState}
use cryptotradingbot.Risk.Manager.{
  approved, Ticket, is_unfresh, freshness_input, judge, evaluate, size_of,
}

module _ {F : Type 0} (d : Doubles F) where
  -- What every approval has found in its context.
  pub record IsGrounded (cfg : RiskConfig F) (s : RiskState) (ctx : RiskContext F) (side : Side)
      (price : Money) : Type 0 where
    pub armed : s.kill_switch_on ≡ false
    pub asked : signal_to_order_side ctx.signal_type ≡ some side
    pub priced : ctx.price ≡ some price
    pub price_positive : pos 0 <ℤ price
    pub timely : IsFresh (freshness_input d cfg ctx)

  pub judge-go :
      (cfg : RiskConfig F) (s : RiskState) (ctx : RiskContext F) (t : Ticket)
      → judge d cfg s ctx ≡ go t
      → IsGrounded cfg s ctx t.ticket_side t.ticket_price
        × ((market : MarketInfo F) × (position : Money) × (ctx.market_info ≡ some market)
            × (ctx.current_position ≡ some position)
            × (size_of d t.ticket_side cfg s ctx t.ticket_price market position ≡ go t.ticket_size))
  unfolding judge
  judge-go cfg s ctx t h =
      let (armed, h1) = reject_if-go s.kill_switch_on kill_switch_active _ h in
      let (side, e2, h2) =
        >>=-go (or_reject (signal_to_order_side ctx.signal_type) no_action) _ h1 in
      let (market, e3, h3) = >>=-go (or_reject ctx.market_info unknown_market_info) _ h2 in
      let (price, e4, h4) = >>=-go (or_reject ctx.price unknown_price) _ h3 in
      let (p, h5) = reject_if-go (not (Money.is_positive price)) unknown_price _ h4 in
      let (position, e6, h6) = >>=-go (or_reject ctx.current_position unknown_position) _ h5 in
      let (f, h7) =
        reject_if-go (is_unfresh (evaluate_freshness (freshness_input d cfg ctx))) stale_market_data
          _ h6 in
      let (size, e8, h8) = >>=-go (size_of d side cfg s ctx price market position) _ h7 in
      subst
        (λ (t : Ticket).
          IsGrounded cfg s ctx t.ticket_side t.ticket_price
          × ((market : MarketInfo F) × (position : Money) × (ctx.market_info ≡ some market)
              × (ctx.current_position ≡ some position)
              × (size_of d t.ticket_side cfg s ctx t.ticket_price market position
                  ≡ go t.ticket_size)))
        (go-injective h8)
        (
          record {
            armed = armed;
            asked = or_reject-go (signal_to_order_side ctx.signal_type) no_action e2;
            priced = or_reject-go ctx.price unknown_price e4;
            price_positive = ground (arith, p);
            timely = (evaluate_freshness-IsFresh (freshness_input d cfg ctx)).0 (is_fresh _ f);
          },
          (
            market,
            position,
            or_reject-go ctx.market_info unknown_market_info e3,
            or_reject-go ctx.current_position unknown_position e6,
            e8,
          ),
        )
    where
      is_fresh : (c : FreshnessCheck) → is_unfresh c ≡ false → c ≡ fresh
      is_fresh fresh h = refl
      is_fresh (unfresh why) h = cc

  -- An approval is a ticket that the checks let through.
  pub evaluate-approved :
      (cfg : RiskConfig F) (s : RiskState) (ctx : RiskContext F) (a : RiskApproval F)
      → evaluate d cfg s ctx ≡ ok (approved a)
      → (t : Ticket) × (judge d cfg s ctx ≡ go t)
        × (a.side ≡ t.ticket_side)
        × (a.price ≡ t.ticket_price)
        × (a.quantity ≡ t.ticket_size.sized_quantity)
        × (a.estimated_notional ≡ t.ticket_size.sized_notional)
  unfolding evaluate
  evaluate-approved cfg s ctx a h = by_verdict (judge d cfg s ctx) refl
    where
      by_verdict :
          (v : Judged Ticket)
          → judge d cfg s ctx ≡ v
          → (t : Ticket) × (judge d cfg s ctx ≡ go t)
            × (a.side ≡ t.ticket_side)
            × (a.price ≡ t.ticket_price)
            × (a.quantity ≡ t.ticket_size.sized_quantity)
            × (a.estimated_notional ≡ t.ticket_size.sized_notional)
      by_verdict (go t) e = (
        t,
        e,
        ground (arith, e, h),
        ground (arith, e, h),
        ground (arith, e, h),
        ground (arith, e, h),
      )
      by_verdict (reject why) e = absurd (ground (arith, e, h))
      by_verdict (throw x) e = absurd (ground (arith, e, h))
