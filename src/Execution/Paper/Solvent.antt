-- ===== src/Execution/Paper/Solvent.antt =====
-- execution/PaperExecutionEngine.ts: the paper cash covers what is reserved of it, whatever is submitted.
use cryptotradingbot.Common.{
  ℕ, ◌≤◌, ◌≡◌, refl, ◌∙◌, true, false, Option, none, some, List, [], ◌∷◌, String, arith, subst,
}
use cryptotradingbot.Common.Int.{pos, negsuc, ◌≤ℤ◌, ◌<ℤ◌}
use cryptotradingbot.Common.Dict.{lookup}
use cryptotradingbot.Common.Result.{Result, ok, ok-injective, >>=-eq-ok}
use cryptotradingbot.Money
use cryptotradingbot.Money.{Money}
use cryptotradingbot.Money.Rounding.{mul_nonneg}
use cryptotradingbot.Money.Rounding.Share.{mul_fraction_nonneg, mul_fraction_at_most}
use cryptotradingbot.Portfolio.Model.{Portfolio, Side, buy, sell}
use cryptotradingbot.Portfolio.Fill.{apply_fill}
use cryptotradingbot.Portfolio.Fill.Inversion.{apply_fill_sell-ok}
use cryptotradingbot.Portfolio.Fill.Solvent.{
  IsSolvent, apply_fill_buy-IsSolvent, apply_fill_sell-IsSolvent,
}
use cryptotradingbot.Risk.Doubles.{Doubles}
use cryptotradingbot.Execution.Paper.Model.{
  PaperOrderRequest, PaperOrder, PaperMarket, PaperExecutionConfig, PaperEngine,
}
use cryptotradingbot.Execution.Paper.{
  is_buy, cost_exceeds_deployable, exact_fraction, slippage_adjusted, fill_value, fee_on, simulated,
}
use cryptotradingbot.Execution.Paper.Book.{
  Execution, cost_of, rest_order, cancel_at, cancel_order, restore_executed_order_ids,
}
use cryptotradingbot.Execution.Paper.Effect.{
  Effect, unchanged, noted, booked, rested, submit_market_order-Effect, submit_limit_order-Effect,
  Call, market_call, limit_call, cancel_call, restore_call, after_call, run,
}

-- A submission at a reference price that is not negative.
abbrev pub IsPriced : Call → Type 0
IsPriced (market_call req market now_ms) = pos 0 ≤ℤ market.reference_price
IsPriced (limit_call req market now_ms) = pos 0 ≤ℤ market.reference_price
IsPriced (cancel_call id now_ms) = Unit
IsPriced (restore_call ids) = Unit

abbrev pub EachPriced : List Call → Type 0
EachPriced [] = Unit
EachPriced (c ∷ rest) = IsPriced c × EachPriced rest

module _ {F : Type 0} (d : Doubles F) (cfg : PaperExecutionConfig F) where
  -- The fee is a part of the notional, and the slippage takes no more than the price.
  pub record IsSane : Type 0 where
    pub fee : ℕ
    pub fee_read : d.billionths cfg.fee_fraction ≡ ok (pos fee)
    pub fee_part : fee ≤ 1000000000
    pub left : ℕ
    pub left_read : d.billionths (d.one_minus cfg.slippage_fraction) ≡ ok (pos left)

  share_nonneg :
      (money : Money) (f : F) (n : ℕ) (r : Money)
      → d.billionths f ≡ ok (pos n)
      → pos 0 ≤ℤ money
      → exact_fraction d cfg money f ≡ ok r
      → pos 0 ≤ℤ r
  unfolding exact_fraction
  share_nonneg (pos k) f n r read h e =
      mul_fraction_nonneg k n 1000000000 r (omega arith) (rw read at e)
  share_nonneg (negsuc k) f n r read h e = absurd (omega (arith, h))

  share_at_most :
      (money : Money) (f : F) (n : ℕ) (r : Money)
      → d.billionths f ≡ ok (pos n)
      → n ≤ 1000000000
      → pos 0 ≤ℤ money
      → exact_fraction d cfg money f ≡ ok r
      → r ≤ℤ money
  unfolding exact_fraction
  share_at_most (pos k) f n r read part h e =
      mul_fraction_at_most k n 1000000000 r (omega arith) part (rw read at e)
  share_at_most (negsuc k) f n r read part h e = absurd (omega (arith, h))

  product_nonneg : (a b : Money) → pos 0 ≤ℤ a → pos 0 ≤ℤ b → pos 0 ≤ℤ Money.mul a b
  product_nonneg a b h k = rw (mul_nonneg a b h k) (omega arith)

  simulated-ok :
      (req : PaperOrderRequest) (market : PaperMarket) (x : Execution)
      → simulated d cfg req market ≡ ok x
      → (slippage_adjusted d cfg market.reference_price req.side ≡ ok x.price)
        × (fee_on d cfg (Money.mul x.quantity x.price) ≡ ok x.fee)
  unfolding simulated
  simulated-ok req market x e =
      let (price, e1, h1) =
        >>=-eq-ok (slippage_adjusted d cfg market.reference_price req.side) _ e in
      let (quantity, e2, h2) = >>=-eq-ok (fill_value d cfg req.quantity) _ h1 in
      let (fee, e3, h3) = >>=-eq-ok (fee_on d cfg (Money.mul quantity price)) _ h2 in
      subst
        (λ (y : Execution).
          (slippage_adjusted d cfg market.reference_price req.side ≡ ok y.price)
          × (fee_on d cfg (Money.mul y.quantity y.price) ≡ ok y.fee))
        (ok-injective h3) (e1, e3)

  -- The proceeds of a simulated SELL cover its fee.
  sell_covers_fee :
      (req : PaperOrderRequest) (market : PaperMarket) (x : Execution)
      → IsSane
      → pos 0 ≤ℤ market.reference_price
      → req.side ≡ sell
      → simulated d cfg req market ≡ ok x
      → pos 0 <ℤ x.quantity
      → x.fee ≤ℤ Money.mul x.quantity x.price
  unfolding slippage_adjusted fee_on
  sell_covers_fee req market x sane priced side e positive =
      let (price_read, fee_read) = simulated-ok req market x e in
      let price_nonneg =
        share_nonneg market.reference_price (d.one_minus cfg.slippage_fraction) sane.left x.price
          sane.left_read priced (rw side at price_read) in
      share_at_most (Money.mul x.quantity x.price) cfg.fee_fraction sane.fee x.fee sane.fee_read
        sane.fee_part (product_nonneg x.quantity x.price (omega (arith, positive)) price_nonneg)
        fee_read

  -- The reserved amounts are as they were, and still covered.
  abbrev pub StaysSolvent : PaperEngine → PaperEngine → Type 0
  StaysSolvent s t = (t.portfolio.reserved ≡ s.portfolio.reserved) × IsSolvent t.portfolio

  booked-StaysSolvent :
      (req : PaperOrderRequest) (market : PaperMarket) (now_ms : ℕ) (s : PaperEngine)
      (x : Execution) (next : Portfolio) (side : Side)
      → IsSane
      → pos 0 ≤ℤ market.reference_price
      → req.side ≡ side
      → simulated d cfg req market ≡ ok x
      → (is_buy side ≡ true → cost_exceeds_deployable s req.symbol (cost_of x) ≡ false)
      → apply_fill s.portfolio req.symbol side x.quantity x.price x.fee
          (some now_ms)
          req.entry_anchor_price
        ≡ ok next
      → IsSolvent s.portfolio
      → (next.reserved ≡ s.portfolio.reserved) × IsSolvent next
  unfolding cost_exceeds_deployable
  booked-StaysSolvent req market now_ms s x next buy sane priced side e within f solvent =
      apply_fill_buy-IsSolvent s.portfolio req.symbol x.quantity x.price x.fee (some now_ms)
        req.entry_anchor_price next f (λ k quote. ground (arith, within refl, quote)) solvent
  booked-StaysSolvent req market now_ms s x next sell sane priced side e within f solvent =
      let (_, positive, _, _) =
        apply_fill_sell-ok s.portfolio req.symbol x.quantity x.price x.fee (some now_ms)
          req.entry_anchor_price next f in
      apply_fill_sell-IsSolvent s.portfolio req.symbol x.quantity x.price x.fee (some now_ms)
        req.entry_anchor_price next f (sell_covers_fee req market x sane priced side e positive)
        solvent

  Effect-StaysSolvent :
      (req : PaperOrderRequest) (market : PaperMarket) (now_ms : ℕ) (s : PaperEngine)
      (a : Result PaperOrder) (t : PaperEngine)
      → IsSane
      → pos 0 ≤ℤ market.reference_price
      → Effect d cfg req market now_ms s a t
      → IsSolvent s.portfolio
      → StaysSolvent s t
  unfolding rest_order
  Effect-StaysSolvent req market now_ms s a t sane priced (unchanged why thrown e) solvent =
      rw e (refl, solvent)
  Effect-StaysSolvent req market now_ms s a t sane priced (noted o id e) solvent =
      rw e (refl, solvent)
  Effect-StaysSolvent req market now_ms s a t sane priced (rested e) solvent = rw e (refl, solvent)
  Effect-StaysSolvent req market now_ms s a t sane priced (booked o x next id sim within f e)
        solvent =
      rw e (
        booked-StaysSolvent req market now_ms s x next req.side sane priced refl sim within f
          solvent)

  cancel_at-portfolio :
      (id : String) (now_ms : ℕ) (place : Option ℕ) (s : PaperEngine)
      → (cancel_at id now_ms place s).1.portfolio ≡ s.portfolio
  unfolding cancel_at
  cancel_at-portfolio id now_ms none s = refl
  cancel_at-portfolio id now_ms (some place) s = ground arith

  after_call-StaysSolvent :
      (c : Call) (s : PaperEngine)
      → IsSane
      → IsPriced c
      → IsSolvent s.portfolio
      → StaysSolvent s (after_call d cfg c s)
  unfolding cancel_order restore_executed_order_ids
  after_call-StaysSolvent (market_call req market now_ms) s sane priced solvent =
      Effect-StaysSolvent req market now_ms s _ _ sane priced
        (submit_market_order-Effect d cfg req market now_ms s) solvent
  after_call-StaysSolvent (limit_call req market now_ms) s sane priced solvent =
      Effect-StaysSolvent req market now_ms s _ _ sane priced
        (submit_limit_order-Effect d cfg req market now_ms s) solvent
  after_call-StaysSolvent (cancel_call id now_ms) s sane priced solvent =
      rw (cancel_at-portfolio id now_ms (lookup id s.open_orders) s) (refl, solvent)
  after_call-StaysSolvent (restore_call ids) s sane priced solvent = (refl, solvent)

  -- With a fee of at most the notional and a slippage of at most the price, at reference prices that are
  -- not negative: whatever is submitted, cancelled and restored, what is reserved of each currency stays as
  -- it was and is never more than the paper cash of it.
  pub run-StaysSolvent :
      (calls : List Call) (s : PaperEngine)
      → IsSane
      → EachPriced calls
      → IsSolvent s.portfolio
      → StaysSolvent s (run d cfg calls s)
  unfolding run
  run-StaysSolvent [] s sane priced solvent = (refl, solvent)
  run-StaysSolvent (c ∷ rest) s sane (first, others) solvent =
      let (same, kept) = after_call-StaysSolvent c s sane first solvent in
      let (same', kept') = run-StaysSolvent rest (after_call d cfg c s) sane others kept in
      (same' ∙ same, kept')
