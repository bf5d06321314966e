-- ===== src/Risk/State/Cooldown.antt =====
-- risk/RiskManager.ts: the cooldown that a loss starts.
use cryptotradingbot.Common.{◌≡◌, refl, arith, Bool-cases, inl, inr}
use cryptotradingbot.Common.Int.{ℤ, pos, ◌+ℤ◌, ◌-ℤ◌, ◌<ℤ◌, ◌≤ℤ◌, ltb_ℤ, int_laws}
use cryptotradingbot.Risk.Model.{RiskConfig}
use cryptotradingbot.Risk.State.{RiskState, record_loss, remaining_cooldown_ms}

-- A loss blocks for exactly the configured time: what remains is never negative, it is positive
-- exactly before the end of the window, and then it is the time left. The kill switch is as it was.
pub record_loss-window :
    {F : Type 0} (cfg : RiskConfig F) (s : RiskState) (lost_at now_ms : ℤ)
    → let left = remaining_cooldown_ms (record_loss cfg s lost_at) now_ms in
      let end = lost_at +ℤ cfg.cooldown_after_loss_ms in
      (pos 0 ≤ℤ left)
      × (now_ms <ℤ end → left ≡ end -ℤ now_ms)
      × (end ≤ℤ now_ms → left ≡ pos 0)
      × ((record_loss cfg s lost_at).kill_switch_on ≡ s.kill_switch_on)
unfolding record_loss remaining_cooldown_ms
record_loss-window cfg s lost_at now_ms =
    let end = lost_at +ℤ cfg.cooldown_after_loss_ms in
    elim (Bool-cases (ltb_ℤ (pos 0) (end -ℤ now_ms))) [
      | inl e ↦
          let p : pos 0 <ℤ end -ℤ now_ms = ground (arith, e) in
          (rw e (omega (arith, p)), λ _. rw e refl, λ le. absurd (omega (int_laws, p, le)), refl)
      | inr e ↦
          let np : end -ℤ now_ms ≤ℤ pos 0 = ground (arith, e) in
          (rw e (omega arith), λ lt. absurd (omega (int_laws, np, lt)), λ _. rw e refl, refl)
    ]
