-- ===== src/Execution/Paper/Effect.antt =====
-- What a submission to execution/PaperExecutionEngine.ts may leave, over all its branches, and the
-- calls of the engine as a sequence.
use cryptotradingbot.Common.{
  ℕ, ◌≡◌, refl, true, false, inl, inr, ◌&&◌, some, List, [], ◌∷◌, String, Bool, Bool-cases,
  Option-cases, arith,
}
use cryptotradingbot.Common.Result.{Result, Error, ok, err, Result-cases, >>=-eq-ok}
use cryptotradingbot.Portfolio.Model.{Portfolio}
use cryptotradingbot.Portfolio.Equity.{position}
use cryptotradingbot.Portfolio.Fill.{apply_fill}
use cryptotradingbot.Risk.Doubles.{Doubles}
use cryptotradingbot.Execution.Paper.Model.{
  PaperOrderStatus, PaperOrderRequest, PaperOrder, PaperMarket, PaperExecutionConfig, PaperEngine,
  filled,
}
use cryptotradingbot.Execution.Paper.{
  quantity_or_zero, is_buy, validate_order, overdraws, cost_exceeds_deployable, status_of,
  marketable, simulated, market_order_with, limit_order_with, submit_market_order,
  submit_limit_order,
}
use cryptotradingbot.Execution.Paper.Book.{
  Execution, restore_executed_order_ids, paper_order, pushed, reject_order, cost_of, fill_order,
  rest_order, cancel_order,
}

-- A call of the engine.
pub data Call : Type 0 where
  market_call limit_call : PaperOrderRequest → PaperMarket → ℕ → Call
  cancel_call : String → ℕ → Call
  restore_call : List String → Call

module _ {F : Type 0} (d : Doubles F) (cfg : PaperExecutionConfig F) where
  -- A submission throws and changes nothing, records an order, records it with its fill applied, or rests it.
  pub data Effect (req : PaperOrderRequest) (market : PaperMarket) (now_ms : ℕ) (s : PaperEngine)
      (a : Result PaperOrder) (t : PaperEngine) : Type 0 where
    unchanged : (why : Error) → a ≡ err why → t ≡ s → Effect req market now_ms s a t
    noted :
        (o : PaperOrder)
        → o.client_order_id ≡ req.client_order_id
        → t ≡ pushed o s
        → Effect req market now_ms s a t
    booked :
        (o : PaperOrder) (x : Execution) (next : Portfolio)
        → o.client_order_id ≡ req.client_order_id
        → simulated d cfg req market ≡ ok x
        → (is_buy req.side ≡ true → cost_exceeds_deployable s req.symbol (cost_of x) ≡ false)
        → apply_fill s.portfolio req.symbol req.side x.quantity x.price x.fee
            (some now_ms)
            req.entry_anchor_price
          ≡ ok next
        → t ≡ record (pushed o s) { portfolio = next }
        → Effect req market now_ms s a t
    rested : t ≡ (rest_order req now_ms s).1 → Effect req market now_ms s a t

  module _ (req : PaperOrderRequest) (market : PaperMarket) (now_ms : ℕ) (s : PaperEngine) where
    abbrev Has : Result PaperOrder × PaperEngine → Type 0
    Has a = Effect req market now_ms s a.0 a.1

    reject_order-Effect : (reason : String) → Has (reject_order req now_ms reason s)
    unfolding reject_order paper_order
    reject_order-Effect reason = noted _ refl refl

    fill_order-Effect :
        (status : PaperOrderStatus) (x : Execution)
        → simulated d cfg req market ≡ ok x
        → (is_buy req.side ≡ true → cost_exceeds_deployable s req.symbol (cost_of x) ≡ false)
        → Has (fill_order req status x now_ms s)
    unfolding fill_order paper_order
    fill_order-Effect status x e within =
        let applied =
          apply_fill s.portfolio req.symbol req.side x.quantity x.price x.fee (some now_ms)
            req.entry_anchor_price in
        elim (Result-cases applied) [
          | inl (why, f) ↦ rw (f, fill_order) (noted _ refl refl)
          | inr (next, f) ↦ rw (f, fill_order) (booked _ x next refl e within f refl)
        ]

    market_order_with-Effect :
        (q : Result Execution)
        → simulated d cfg req market ≡ q
        → Has (market_order_with d cfg req q now_ms s)
    unfolding market_order_with
    market_order_with-Effect (err why) e = unchanged why refl refl
    market_order_with-Effect (ok x) e =
        elim (Bool-cases (is_buy req.side && cost_exceeds_deployable s req.symbol (cost_of x))) [
          | inl over ↦ rw over (reject_order-Effect overdraws)
          | inr within ↦ rw within (fill_order-Effect filled x e (λ b. ground (arith, within, b)))
        ]

    limit_order_with-Effect :
        (q : Result (Bool × Execution))
        → ((m : Bool) (x : Execution) → q ≡ ok (m, x) → simulated d cfg req market ≡ ok x)
        → Has (limit_order_with d cfg req q now_ms s)
    unfolding limit_order_with
    limit_order_with-Effect (err why) e = unchanged why refl refl
    limit_order_with-Effect (ok (false, x)) e = elim (Bool-cases (is_buy req.side)) [
      | inl b ↦ rw b (rested refl)
      | inr b ↦ rw b (rested refl)
    ]
    limit_order_with-Effect (ok (true, x)) e =
        let filled_with = fill_order-Effect (status_of x.quantity req.quantity) x (e true x refl) in
        elim (Bool-cases (is_buy req.side)) [
          | inr b ↦ rw b (filled_with (λ b'. ground (arith, b, b')))
          | inl b ↦ elim (Bool-cases (cost_exceeds_deployable s req.symbol (cost_of x))) [
            | inl over ↦ rw (b, over) (reject_order-Effect overdraws)
            | inr within ↦ rw (b, within) (filled_with (λ _. within))
          ]
        ]

    pub submit_market_order-Effect : Has (submit_market_order d cfg req market now_ms s)
    unfolding submit_market_order
    submit_market_order-Effect =
        let checked = validate_order req (quantity_or_zero (position s.portfolio req.symbol)) in
        elim (Option-cases checked) [
          | inl e ↦
              rw (e, submit_market_order)
                (market_order_with-Effect (simulated d cfg req market) refl)
          | inr (reason, e) ↦ rw (e, submit_market_order) (reject_order-Effect reason)
        ]

    pub submit_limit_order-Effect : Has (submit_limit_order d cfg req market now_ms s)
    unfolding submit_limit_order
    submit_limit_order-Effect =
        let checked = validate_order req (quantity_or_zero (position s.portfolio req.symbol)) in
        elim (Option-cases checked) [
          | inl e ↦
              rw (e, submit_limit_order)
                (limit_order_with-Effect _ (λ m x h.
                  let (m', _, h1) = >>=-eq-ok (marketable req market) _ h in
                  let (x', h2, h3) = >>=-eq-ok (simulated d cfg req market) _ h1 in
                  ground (arith, h2, h3)))
          | inr (reason, e) ↦ rw (e, submit_limit_order) (reject_order-Effect reason)
        ]

  -- What calls, made one after another, leave.
  abbrev pub after_call : Call → PaperEngine → PaperEngine
  after_call (market_call req market now_ms) s = (submit_market_order d cfg req market now_ms s).1
  after_call (limit_call req market now_ms) s = (submit_limit_order d cfg req market now_ms s).1
  after_call (cancel_call id now_ms) s = (cancel_order id now_ms s).1
  after_call (restore_call ids) s = restore_executed_order_ids ids s

  unfoldable pub run : List Call → PaperEngine → PaperEngine
  run [] s = s
  run (c ∷ rest) s = run rest (after_call c s)
