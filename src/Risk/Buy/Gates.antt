-- ===== src/Risk/Buy/Gates.antt =====
-- risk/RiskManager.ts: what the gates on a BUY let through (checkDailyLoss, checkDrawdown,
-- checkCooldown, checkMaxOpenPositions).
use cryptotradingbot.Common.{
  ◌≡◌, refl, Bool, true, false, not, ◌&&◌, ◌⊎◌, inl, inr, some, arith, Bool-cases,
}
use cryptotradingbot.Common.Int.{pos, neg, ◌+ℤ◌, ◌<ℤ◌, ◌≤ℤ◌, ltb_ℤ, leb_ℤ}
use cryptotradingbot.Common.Result.{ok}
use cryptotradingbot.Money
use cryptotradingbot.Money.{Money}
use cryptotradingbot.Risk.Doubles.{Doubles, fraction_of}
use cryptotradingbot.Risk.Model.{
  RiskConfig, RiskContext, RiskReason, unknown_pnl, unknown_peak, cooldown_active,
  max_open_positions, daily_loss_limit_exceeded, max_drawdown_exceeded,
}
use cryptotradingbot.Risk.Judged.{go, reject_if, or_reject, call, >>=-go, or_reject-go, call-go}
use cryptotradingbot.Risk.State.{RiskState, remaining_cooldown_ms}
use cryptotradingbot.Risk.Buy.{
  check_gates, check_daily_loss, check_drawdown, check_cooldown, check_max_open_positions,
  is_positive_amount, or_none_open,
}

pub reject_if-passed : (b : Bool) (why : RiskReason) → reject_if b why ≡ go tt → b ≡ false
reject_if-passed true why h = cc
reject_if-passed false why h = refl

module _ {F : Type 0} (d : Doubles F) where
  -- No gate on new exposure is closed.
  pub record IsCalm (cfg : RiskConfig F) (s : RiskState) (ctx : RiskContext F) (current : Money)
      : Type 0 where
    pub loss_bounded :
        d.is_below_or_zero cfg.max_daily_loss_fraction ≡ false
        → (realized : Money) × (unrealized : Money) × (ctx.realized_pnl_today ≡ some realized)
          × (ctx.unrealized_pnl_today ≡ some unrealized)
          × ((pos 0 ≤ℤ realized +ℤ unrealized)
              ⊎ ((limit : Money) × (fraction_of d current cfg.max_daily_loss_fraction ≡ ok limit)
                  × (neg (realized +ℤ unrealized) <ℤ limit)))
    pub drawdown_bounded :
        d.is_below_or_zero cfg.max_drawdown_fraction ≡ false
        → (peak : Money) × (ctx.peak_portfolio_value ≡ some peak)
          × ((peak ≤ℤ pos 0)
              ⊎ ((denial_level : Money) × (fraction_of d peak
                      (d.one_minus cfg.max_drawdown_fraction)
                    ≡ ok denial_level)
                  × (denial_level <ℤ current)))
    pub cooled_down :
        pos 0 <ℤ cfg.cooldown_after_loss_ms → remaining_cooldown_ms s ctx.now_ms ≤ℤ pos 0
    pub slot_free :
        pos 0 <ℤ cfg.max_open_positions_limit
        → (is_positive_amount ctx.current_position ≡ true)
          ⊎ (or_none_open ctx.open_managed_position_count <ℤ cfg.max_open_positions_limit)

  loss-bounded :
      (cfg : RiskConfig F) (ctx : RiskContext F) (current : Money)
      → check_daily_loss d cfg ctx current ≡ go tt
      → d.is_below_or_zero cfg.max_daily_loss_fraction ≡ false
      → (realized : Money) × (unrealized : Money) × (ctx.realized_pnl_today ≡ some realized)
        × (ctx.unrealized_pnl_today ≡ some unrealized)
        × ((pos 0 ≤ℤ realized +ℤ unrealized)
            ⊎ ((limit : Money) × (fraction_of d current cfg.max_daily_loss_fraction ≡ ok limit)
                × (neg (realized +ℤ unrealized) <ℤ limit)))
  unfolding check_daily_loss
  loss-bounded cfg ctx current h on =
      let (r, e1, h1) = >>=-go (or_reject ctx.realized_pnl_today unknown_pnl) _ (rw on at h) in
      let (u, e2, h2) = >>=-go (or_reject ctx.unrealized_pnl_today unknown_pnl) _ h1 in
      (
        r,
        u,
        or_reject-go ctx.realized_pnl_today unknown_pnl e1,
        or_reject-go ctx.unrealized_pnl_today unknown_pnl e2,
        elim (Bool-cases (Money.is_negative (r +ℤ u))) [
          | inr e ↦ inl (ground (arith, e))
          | inl e ↦
              let (limit, e3, h3) =
                >>=-go (call (fraction_of d current cfg.max_daily_loss_fraction)) _ (rw e at h2) in
              let above =
                reject_if-passed (leb_ℤ limit (neg (r +ℤ u))) daily_loss_limit_exceeded h3 in
              inr (
                limit,
                call-go (fraction_of d current cfg.max_daily_loss_fraction) e3,
                ground (arith, above),
              )
        ],
      )

  drawdown-bounded :
      (cfg : RiskConfig F) (ctx : RiskContext F) (current : Money)
      → check_drawdown d cfg ctx current ≡ go tt
      → d.is_below_or_zero cfg.max_drawdown_fraction ≡ false
      → (peak : Money) × (ctx.peak_portfolio_value ≡ some peak)
        × ((peak ≤ℤ pos 0)
            ⊎ ((denial_level : Money) × (fraction_of d peak (d.one_minus cfg.max_drawdown_fraction)
                  ≡ ok denial_level)
                × (denial_level <ℤ current)))
  unfolding check_drawdown
  drawdown-bounded cfg ctx current h on =
      let (peak, e1, h1) =
        >>=-go (or_reject ctx.peak_portfolio_value unknown_peak) _ (rw on at h) in
      (
        peak,
        or_reject-go ctx.peak_portfolio_value unknown_peak e1,
        elim (Bool-cases (Money.is_negative_or_zero peak)) [
          | inl e ↦ inl (ground (arith, e))
          | inr e ↦
              let (level, e2, h2) =
                >>=-go (call (fraction_of d peak (d.one_minus cfg.max_drawdown_fraction))) _
                  (rw e at h1) in
              let below = reject_if-passed (leb_ℤ current level) max_drawdown_exceeded h2 in
              inr (
                level,
                call-go (fraction_of d peak (d.one_minus cfg.max_drawdown_fraction)) e2,
                ground (arith, below),
              )
        ],
      )

  cooled-down :
      (cfg : RiskConfig F) (s : RiskState) (ctx : RiskContext F)
      → check_cooldown cfg s ctx ≡ go tt
      → pos 0 <ℤ cfg.cooldown_after_loss_ms
      → remaining_cooldown_ms s ctx.now_ms ≤ℤ pos 0
  unfolding check_cooldown
  cooled-down cfg s ctx h p =
      let off =
        reject_if-passed
          (ltb_ℤ (pos 0) cfg.cooldown_after_loss_ms
            && ltb_ℤ (pos 0) (remaining_cooldown_ms s ctx.now_ms))
          cooldown_active h in
      ground (arith, off, p)

  slot-free :
      (cfg : RiskConfig F) (ctx : RiskContext F)
      → check_max_open_positions cfg ctx ≡ go tt
      → pos 0 <ℤ cfg.max_open_positions_limit
      → (is_positive_amount ctx.current_position ≡ true)
        ⊎ (or_none_open ctx.open_managed_position_count <ℤ cfg.max_open_positions_limit)
  unfolding check_max_open_positions
  slot-free cfg ctx h p =
      let off =
        reject_if-passed
          (ltb_ℤ (pos 0) cfg.max_open_positions_limit
            && not (is_positive_amount ctx.current_position)
            && leb_ℤ cfg.max_open_positions_limit (or_none_open ctx.open_managed_position_count))
          max_open_positions h in
      elim (Bool-cases (is_positive_amount ctx.current_position)) [
        | inl e ↦ inl e
        | inr e ↦ inr (ground (arith, off, p, e))
      ]

  pub check_gates-IsCalm :
      (cfg : RiskConfig F) (s : RiskState) (ctx : RiskContext F) (current : Money)
      → check_gates d cfg s ctx current ≡ go tt
      → IsCalm cfg s ctx current
  unfolding check_gates
  check_gates-IsCalm cfg s ctx current h =
      let (_, h1, t1) = >>=-go (check_daily_loss d cfg ctx current) _ h in
      let (_, h2, t2) = >>=-go (check_drawdown d cfg ctx current) _ t1 in
      let (_, h3, t3) = >>=-go (check_cooldown cfg s ctx) _ t2 in
      record {
        loss_bounded = loss-bounded cfg ctx current h1;
        drawdown_bounded = drawdown-bounded cfg ctx current h2;
        cooled_down = cooled-down cfg s ctx h3;
        slot_free = slot-free cfg ctx t3;
      }
