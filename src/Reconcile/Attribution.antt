-- ===== src/Reconcile/Attribution.antt =====
-- reconcile/executionCorrelation.ts: when an execution can be accounted, and to which order it belongs.
use cryptotradingbot.Common.{
  ◌≡◌, ◌≢◌, ◌⊎◌, refl, true, false, inl, inr, Option, some, String, str_eq, eq_iff, arith,
  Bool-cases,
}
use cryptotradingbot.Common.Int.{pos, ◌<ℤ◌, ◌≤ℤ◌}
use cryptotradingbot.Portfolio.Model.{Side, buy, sell, same_side}
use cryptotradingbot.Portfolio.Ids.{is_empty, is_number, number, same_order}
use cryptotradingbot.Reconcile.Model.{Order, AccountTrade}

-- A text that is there and not empty.
abbrev pub IsGiven : Option String → Type 0
IsGiven text = (s : String) × (text ≡ some s) × (s ≢ "")

-- An execution with what accounting it needs.
pub record IsAccountable (trade : AccountTrade) : Type 0 where
  pub identified : IsGiven trade.execution_id
  pub of_an_order : IsGiven trade.order_id
  pub of_a_symbol : IsGiven trade.trade_symbol
  pub some_quantity : pos 0 <ℤ trade.quantity
  pub some_price : pos 0 <ℤ trade.price
  pub fee_nonneg : pos 0 ≤ℤ trade.fee

-- One exchange order under two ids: the same text, or the same number.
abbrev pub IsSameId : String → String → Type 0
IsSameId a b = (a ≡ b) ⊎ ((is_number a ≡ true) × (is_number b ≡ true) × (number a ≡ number b))

-- The execution is of the order: its exchange order, its symbol and its side.
pub record IsExecutionOf (trade : AccountTrade) (o : Order) : Type 0 where
  pub exchange_order_id : String
  pub trade_order_id : String
  pub has_id : o.exchange_order_id ≡ some exchange_order_id
  pub id_given : exchange_order_id ≢ ""
  pub names_order : trade.order_id ≡ some trade_order_id
  pub same_order_id : IsSameId exchange_order_id trade_order_id
  pub on_symbol : trade.trade_symbol ≡ some o.symbol
  pub on_side : trade.side ≡ o.side

pub is_empty_lem : (s : String) → is_empty s ≡ false → s ≢ ""
is_empty_lem s h e = cc (rw e at h)

pub not_empty : (s : String) → s ≢ "" → is_empty s ≡ false
not_empty String.[] h = absurd (h refl)
not_empty (String.◌∷◌ c s) h = refl

pub same_order-IsSameId : (a b : String) → same_order a b ≡ true → IsSameId a b
unfolding same_order
same_order-IsSameId a b h = elim (Bool-cases (str_eq a b)) [
  | inl e ↦ inl ((eq_iff a b).0 e)
  | inr e ↦ inr (ground (arith, e, h), ground (arith, e, h), ground (arith, e, h))
]

pub IsSameId-same_order : (a b : String) → IsSameId a b → same_order a b ≡ true
unfolding same_order
IsSameId-same_order a b (inl e) = ground (arith, (eq_iff a b).1 e)
IsSameId-same_order a b (inr (x, y, e)) = ground (arith, x, y, e)

pub same_side_lem : (a b : Side) → same_side a b ≡ true → b ≡ a
same_side_lem buy buy h = refl
same_side_lem sell sell h = refl
same_side_lem buy sell h = cc
same_side_lem sell buy h = cc

pub same_side_refl : (a : Side) → same_side a a ≡ true
same_side_refl buy = refl
same_side_refl sell = refl
