-- ===== src/Risk/Quantity.antt =====
-- risk/RiskManager.ts: validateMarketQuantity.
use cryptotradingbot.Common.{
  ◌≡◌, refl, ap, ◌∙◌, Bool, true, false, not, Option, none, some, arith, if◌then◌else◌,
}
use cryptotradingbot.Common.Int.{pos, ◌<ℤ◌, ltb_ℤ}
use cryptotradingbot.Common.Result.{ok}
use cryptotradingbot.Money
use cryptotradingbot.Money.{Money}
use cryptotradingbot.Risk.Model.{
  MarketInfo, invalid_quantity, precision_violation, below_min_quantity,
}
use cryptotradingbot.Risk.Judged.{
  Judged, go, ◌>>=◌, ◌>>◌, reject_if, call, >>=-go, reject_if-go, call-go,
}

-- `market.minOrderBase !== null && quantity.compareTo(market.minOrderBase) < 0`
abbrev pub is_below_min : Option Money → Money → Bool
is_below_min none quantity = false
is_below_min (some min_order_base) quantity = ltb_ℤ quantity min_order_base

module _ {F : Type 0} where
  -- The price is checked against its tick only where the tick is positive.
  unfoldable pub check_price_tick : MarketInfo F → Money → Judged (Unit {0})
  check_price_tick market price =
      if Money.is_positive market.price_tick
      then (call (Money.is_multiple_of price market.price_tick) >>= λ on_tick.
          reject_if (not on_tick) precision_violation)
      else go tt

  unfoldable pub validate_market_quantity : MarketInfo F → Money → Money → Judged (Unit {0})
  unfolding check_price_tick
  validate_market_quantity market price quantity = do
    reject_if (not (Money.is_positive quantity)) invalid_quantity
    on_tick ← call (Money.is_multiple_of quantity market.quantity_tick)
    reject_if (not on_tick) precision_violation
    reject_if (is_below_min market.min_order_base quantity) below_min_quantity
    check_price_tick market price

  -- A quantity that the market takes.
  pub record IsTradable (market : MarketInfo F) (quantity : Money) : Type 0 where
    pub positive : pos 0 <ℤ quantity
    pub on_grid : Money.is_multiple_of quantity market.quantity_tick ≡ ok true
    pub not_small : is_below_min market.min_order_base quantity ≡ false

  pub validate_market_quantity-IsTradable :
      (market : MarketInfo F) (price quantity : Money)
      → validate_market_quantity market price quantity ≡ go tt
      → IsTradable market quantity
  unfolding validate_market_quantity
  validate_market_quantity-IsTradable market price quantity h =
      let (p, h1) = reject_if-go (not (Money.is_positive quantity)) invalid_quantity _ h in
      let (on_tick, e, h2) =
        >>=-go (call (Money.is_multiple_of quantity market.quantity_tick)) _ h1 in
      let (t, h3) = reject_if-go (not on_tick) precision_violation _ h2 in
      let (m, h4) =
        reject_if-go (is_below_min market.min_order_base quantity) below_min_quantity _ h3 in
      record {
        positive = ground (arith, p);
        on_grid =
            call-go (Money.is_multiple_of quantity market.quantity_tick) e
            ∙ ap ok (is_true on_tick t);
        not_small = m;
      }
    where
      is_true : (b : Bool) → not b ≡ false → b ≡ true
      is_true true h = refl
      is_true false h = cc
