-- ===== src/Risk/Sell.antt =====
-- risk/RiskManager.ts: evaluateSell, which closes all or a bounded part of the managed position.
use cryptotradingbot.Common.{
  Bool, true, false, not, ◌&&◌, ◌||◌, Option, none, some, List, [], ◌∷◌, if◌then◌else◌,
}
use cryptotradingbot.Common.Int.{ltb_ℤ}
use cryptotradingbot.Money
use cryptotradingbot.Money.{Money}
use cryptotradingbot.Risk.Doubles.{Doubles, fraction_of}
use cryptotradingbot.Risk.Model.{
  MarketInfo, RiskContext, SellTarget, invalid_sell_target, sell_exceeds_managed_position,
  sell_exceeds_position, no_action, below_min_quantity,
}
use cryptotradingbot.Risk.Judged.{Judged, go, ◌>>=◌, ◌>>◌, reject_if, call}
use cryptotradingbot.Risk.Quantity.{validate_market_quantity}

-- The smallest of the admitted quantities, the first one at a tie.
unfoldable pub least : Money → List Money → Money
least binding [] = binding
least binding (q ∷ admitted) = least (if ltb_ℤ q binding then q else binding) admitted

abbrev pub is_none {ℓ} : {A : Type ℓ} → Option A → Bool
is_none none = true
is_none (some _) = false

abbrev pub or_zero : Option Money → Money
or_zero none = Money.zero
or_zero (some a) = a

-- What a sell comes to: its quantity and its notional.
pub record Sized : Type 0 where
  pub sized_quantity : Money
  pub sized_notional : Money

module _ {F : Type 0} (d : Doubles F) where
  -- The quantities that a target admits besides the position itself.
  unfoldable pub admit_notional : Option Money → Money → Money → Judged (List Money)
  admit_notional none price tick = go []
  admit_notional (some n) price tick = do
    reject_if (not (Money.is_positive n)) invalid_sell_target
    base ← call (Money.div n price)
    floored ← call (Money.floor_to_increment base tick)
    go (floored ∷ [])

  unfoldable pub admit_fraction : Option F → Money → Money → Judged (List Money)
  admit_fraction none cap_base tick = go []
  admit_fraction (some f) cap_base tick = do
    reject_if (not (d.is_finite f) || d.is_below_or_zero f || d.is_above_one f) invalid_sell_target
    part ← call (fraction_of d cap_base f)
    floored ← call (Money.floor_to_increment part tick)
    go (floored ∷ [])

  unfoldable pub resolve_sell_target : SellTarget F → Money → Money → Money → Judged Money
  resolve_sell_target target price tick cap_base = do
    reject_if (is_none target.fraction && is_none target.notional) invalid_sell_target
    by_notional ← admit_notional target.notional price tick
    by_fraction ← admit_fraction target.fraction cap_base tick
    go (least (least cap_base by_notional) by_fraction)

  unfoldable pub target_base_of : Option (SellTarget F) → Money → Money → Money → Judged Money
  target_base_of none price tick cap_base = go cap_base
  target_base_of (some target) price tick cap_base = resolve_sell_target target price tick cap_base

  -- `price`, `market` and `position` are the context's, which `evaluate` has found there.
  unfoldable pub evaluate_sell : RiskContext F → Money → MarketInfo F → Money → Judged Sized
  evaluate_sell ctx price market position = do
    reject_if (Money.is_zero position && Money.is_positive (or_zero ctx.external_position))
        sell_exceeds_managed_position
    reject_if (Money.is_zero position) no_action
    reject_if (Money.is_negative position) sell_exceeds_position
    cap_base ← call (Money.floor_to_increment position market.quantity_tick)
    reject_if (Money.is_zero cap_base) below_min_quantity
    target_base ← target_base_of ctx.sell_target price market.quantity_tick cap_base
    reject_if (Money.is_zero target_base) below_min_quantity
    validate_market_quantity market price target_base
    notional ← call (Money.floor_to_increment (Money.mul target_base price) market.price_tick)
    go (record { sized_quantity = target_base; sized_notional = notional })
