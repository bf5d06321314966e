-- ===== src/Risk/Buy/Sizing.antt =====
-- risk/RiskManager.ts: the quantity of a BUY, sized from the binding cap and floored to the tick.
use cryptotradingbot.Common.{ℕ, ◌*◌, ◌/◌, ◌<◌, ◌≡◌, refl, sym, ◌∙◌, subst, not, arith}
use cryptotradingbot.Common.Int.{pos, negsuc, ◌<ℤ◌, ◌≤ℤ◌}
use cryptotradingbot.Common.Result.{ok, throw_if-ok, ok-injective, bad_increment}
use cryptotradingbot.Money
use cryptotradingbot.Money.{Money, half_up, scale_pow}
use cryptotradingbot.Money.Rounding.{mul_nonneg, div_below}
use cryptotradingbot.Money.Rounding.Grid.{div_pos, floor_pos, sized, sized-cost}
use cryptotradingbot.Risk.Model.{MarketInfo, below_min_quantity}
use cryptotradingbot.Risk.Judged.{go, call, >>=-go, call-go, go-injective, reject_if-go}
use cryptotradingbot.Risk.Quantity.{
  IsTradable, validate_market_quantity, validate_market_quantity-IsTradable,
}
use cryptotradingbot.Risk.Sell.{Sized}
use cryptotradingbot.Risk.Buy.{Cap, size_buy}

pub positive-pos : (a : Money) → pos 0 <ℤ a → (n : ℕ) × (a ≡ pos n) × (0 < n)
positive-pos (pos n) h = (n, refl, omega (arith, h))
positive-pos (negsuc n) h = absurd (omega (arith, h))

-- An increment that `floorToIncrement` takes is positive.
pub floor_to_increment-positive :
    (a tick r : Money) → Money.floor_to_increment a tick ≡ ok r → pos 0 <ℤ tick
unfolding Money.floor_to_increment
floor_to_increment-positive a tick r h =
    let (p, _) = throw_if-ok (Money.is_negative_or_zero tick) bad_increment _ h in ground (arith, p)

-- A nonnegative amount is floored to one that is no larger.
pub floor_to_increment-le :
    (m : ℕ) (tick r : Money)
    → Money.floor_to_increment (pos m) tick ≡ ok r
    → (pos 0 ≤ℤ r) × (r ≤ℤ pos m)
floor_to_increment-le m tick r h =
    let (t, et, ht) = positive-pos tick (floor_to_increment-positive (pos m) tick r h) in
    let h' : Money.floor_to_increment (pos m) (pos t) ≡ ok r = rw et at h in
    let e = ok-injective (sym h' ∙ floor_pos m t ht) in
    (rw e (omega arith), rw e (omega (arith, div_below m t)))

bought_cost :
    (n p : ℕ) (tick base q : Money)
    → 0 < p
    → Money.div (pos n) (pos p) ≡ ok base
    → Money.floor_to_increment base tick ≡ ok q
    → Money.mul q (pos p) ≤ℤ pos n
unfolding sized
bought_cost n p tick base q hp h1 h2 =
    let (t, et, ht) = positive-pos tick (floor_to_increment-positive base tick q h2) in
    let e : base ≡ pos (n * scale_pow / p) = ok-injective (sym h1 ∙ div_pos n p hp) in
    let h3 : Money.floor_to_increment base (pos t) ≡ ok q = rw et at h2 in
    let h4 : Money.floor_to_increment (pos (n * scale_pow / p)) (pos t) ≡ ok q = rw e at h3 in
    let eq = ok-injective (sym h4 ∙ floor_pos (n * scale_pow / p) t ht) in rw eq (sized-cost n p t)

-- The quantity costs at most its cap.
pub sized_cost-le :
    (a price tick base q : Money)
    → pos 0 <ℤ a
    → pos 0 <ℤ price
    → Money.div a price ≡ ok base
    → Money.floor_to_increment base tick ≡ ok q
    → Money.mul q price ≤ℤ a
sized_cost-le a price tick base q ha hp h1 h2 =
    let (n, en, _) = positive-pos a ha in
    let (p, ep, p0) = positive-pos price hp in
    let h3 : Money.div (pos n) price ≡ ok base = rw en at h1 in
    let h4 : Money.div (pos n) (pos p) ≡ ok base = rw ep at h3 in
    rw (en, ep) (bought_cost n p tick base q p0 h4 h2)

pub floored-le :
    (q price tick r : Money)
    → pos 0 ≤ℤ q
    → pos 0 ≤ℤ price
    → Money.floor_to_increment (Money.mul q price) tick ≡ ok r
    → r ≤ℤ Money.mul q price
floored-le q price tick r hq hp h =
    let e = mul_nonneg q price hq hp in
    let h' = rw e at h in rw e (floor_to_increment-le _ tick r h').1

module _ {F : Type 0} where
  -- A BUY is sized to a tradable quantity that costs at most the cap, and the notional that is
  -- estimated is at most that cost.
  pub size_buy-ok :
      (market : MarketInfo F) (price : Money) (cap : Cap) (size : Sized)
      → pos 0 <ℤ price
      → size_buy market price cap ≡ go size
      → IsTradable market size.sized_quantity
        × (Money.mul size.sized_quantity price ≤ℤ cap.cap_notional)
        × (size.sized_notional ≤ℤ Money.mul size.sized_quantity price)
  unfolding size_buy
  size_buy-ok market price cap size hp h =
      let (room, h1) =
        reject_if-go (Money.is_negative_or_zero cap.cap_notional) cap.cap_reason _ h in
      let (base, e1, h2) = >>=-go (call (Money.div cap.cap_notional price)) _ h1 in
      let (q, e2, h3) = >>=-go (call (Money.floor_to_increment base market.quantity_tick)) _ h2 in
      let (some_left, h4) = reject_if-go (not (Money.is_positive q)) below_min_quantity _ h3 in
      let (_, valid, h5) = >>=-go (validate_market_quantity market price q) _ h4 in
      let (r, e3, h6) =
        >>=-go (call (Money.floor_to_increment (Money.mul q price) market.price_tick)) _ h5 in
      let t = validate_market_quantity-IsTradable market price q valid in
      let cap_pos : pos 0 <ℤ cap.cap_notional = ground (arith, room) in
      subst
        (λ (x : Sized).
          IsTradable market x.sized_quantity
          × (Money.mul x.sized_quantity price ≤ℤ cap.cap_notional)
          × (x.sized_notional ≤ℤ Money.mul x.sized_quantity price))
        (go-injective h6)
        (
          t,
          sized_cost-le cap.cap_notional price market.quantity_tick base q cap_pos hp
              (call-go (Money.div cap.cap_notional price) e1)
              (call-go (Money.floor_to_increment base market.quantity_tick) e2),
          floored-le q price market.price_tick r (omega (arith, t.positive)) (omega (arith, hp))
              (call-go (Money.floor_to_increment (Money.mul q price) market.price_tick) e3),
        )
