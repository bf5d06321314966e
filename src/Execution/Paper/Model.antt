-- ===== src/Execution/Paper/Model.antt =====
-- execution/PaperExecutionTypes.ts, and the fields of PaperExecutionEngine. `F` is the type of the
-- fractions.
use cryptotradingbot.Common.{ℕ, Option, none, some, List, [], ◌∷◌, String}
use cryptotradingbot.Common.Dict.{Dict}
use cryptotradingbot.Money.{Money}
use cryptotradingbot.Portfolio.Model.{Portfolio, Side, FeeCurrency}
use cryptotradingbot.Reconcile.Model.{OrderType}

pub data PaperOrderStatus : Type 0 where
  filled partially_filled open_status canceled rejected : PaperOrderStatus

pub record PaperFill : Type 0 where
  pub price : Money
  pub quantity : Money
  pub fee : Money
  pub fee_currency : FeeCurrency
  pub timestamp_ms : ℕ

pub record PaperOrderRequest : Type 0 where
  pub client_order_id : String
  pub symbol : String
  pub side : Side
  pub order_type : OrderType
  pub quantity : Money
  pub limit_price : Option Money
  pub reason : String
  pub entry_anchor_price : Option Money

pub record PaperOrder : Type 0 where
  pub client_order_id : String
  pub symbol : String
  pub side : Side
  pub order_type : OrderType
  pub order_status : PaperOrderStatus
  pub quantity : Money
  pub filled_quantity : Money
  pub average_price : Option Money
  pub price : Option Money
  pub fills : List PaperFill
  pub fee : Money
  pub reason : String
  pub created_at_ms : ℕ
  pub updated_at_ms : ℕ

pub record PaperMarket : Type 0 where
  pub reference_price : Money
  pub bid : Option Money
  pub ask : Option Money

pub record PaperExecutionConfig (F : Type 0) : Type 0 where
  pub fee_fraction : F
  pub slippage_fraction : F
  pub fill_fraction : F

-- An open order is its place in the history.
pub record PaperEngine : Type 0 where
  pub portfolio : Portfolio
  pub open_orders : Dict ℕ
  pub all_orders : List PaperOrder
  pub known_executed_ids : List String

module _ {A : Type 0} where
  unfoldable pub length : List A → ℕ
  length [] = 0
  length (x ∷ xs) = ℕ.suc (length xs)

  -- What stands at a place.
  unfoldable pub get_elem? : List A → ℕ → Option A
  get_elem? [] n = none
  get_elem? (x ∷ xs) ℕ.zero = some x
  get_elem? (x ∷ xs) (ℕ.suc n) = get_elem? xs n

  -- The list with another element at a place.
  unfoldable pub set_elem : List A → ℕ → A → List A
  set_elem [] n y = []
  set_elem (x ∷ xs) ℕ.zero y = y ∷ xs
  set_elem (x ∷ xs) (ℕ.suc n) y = x ∷ set_elem xs n y
