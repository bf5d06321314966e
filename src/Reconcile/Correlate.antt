-- ===== src/Reconcile/Correlate.antt =====
-- reconcile/executionCorrelation.ts: whether an execution is proven to belong to one local order.
use cryptotradingbot.Common.{
  ◌≡◌, ◌≢◌, refl, sym, ap, Bool, true, false, not, ◌&&◌, ◌||◌, inl, inr, Option, none, some, List,
  [], ◌∷◌, String, str_eq, eq_iff, eq_refl, arith, if◌then◌else◌, Bool-cases, eq_of_some,
}
use cryptotradingbot.Common.Dict.{Dict, lookup, Keyed}
use cryptotradingbot.Money
use cryptotradingbot.Money.{Money}
use cryptotradingbot.Portfolio.Model.{same_side}
use cryptotradingbot.Portfolio.Ids.{is_empty, same_external_order_id}
use cryptotradingbot.Portfolio.Settle.Execution.{non_empty}
use cryptotradingbot.Reconcile.Model.{
  Order, AccountTrade, CorrelationLevel, proven, ambiguous, uncorrelated,
}
use cryptotradingbot.Reconcile.Attribution.{
  IsGiven, IsAccountable, IsSameId, IsExecutionOf, is_empty_lem, not_empty, same_order-IsSameId,
  IsSameId-same_order, same_side_lem, same_side_refl,
}

-- CorrelationResult, less the text of its reason.
pub record CorrelationResult : Type 0 where
  pub correlation : CorrelationLevel
  pub matched_client_order_id : Option String

abbrev pub is_absent : Option String → Bool
is_absent none = true
is_absent (some s) = false

-- `!o.exchangeOrderId`, and then the exact order id
abbrev pub same_exchange_order : Option String → Option String → Bool
same_exchange_order none order_id = false
same_exchange_order (some id) order_id = same_external_order_id (some id) order_id

abbrev pub same_symbol : Option String → String → Bool
same_symbol none symbol = false
same_symbol (some s) symbol = str_eq symbol s

unfoldable pub matches_order : AccountTrade → Order → Bool
matches_order trade o =
    same_exchange_order (non_empty o.exchange_order_id) trade.order_id
    && same_symbol trade.trade_symbol o.symbol
    && same_side o.side trade.side

unfoldable pub matching : AccountTrade → Dict Order → List String
matching trade [] = []
matching trade ((client_order_id, o) ∷ orders) =
    let rest = matching trade orders in
    if matches_order trade o then client_order_id ∷ rest else rest

-- An execution that has no identity, order, symbol, quantity, price or fee to go by.
unfoldable pub is_unusable : AccountTrade → Bool
is_unusable trade =
    is_absent (non_empty trade.execution_id)
    || is_absent (non_empty trade.order_id)
    || is_absent (non_empty trade.trade_symbol)
    || not (Money.is_positive trade.quantity)
    || not (Money.is_positive trade.price)
    || Money.is_negative trade.fee

abbrev pub correlation_of : List String → CorrelationResult
correlation_of [] = record { correlation = uncorrelated; matched_client_order_id = none }
correlation_of (id ∷ []) = record { correlation = proven; matched_client_order_id = some id }
correlation_of (id ∷ other ∷ rest) = record {
  correlation = ambiguous;
  matched_client_order_id = none;
}

unfoldable pub correlate_execution : AccountTrade → Dict Order → CorrelationResult
unfolding is_unusable matching
correlate_execution trade orders =
    if is_unusable trade
    then record { correlation = ambiguous; matched_client_order_id = none }
    else correlation_of (matching trade orders)

unfoldable pub among : String → List String → Bool
among id [] = false
among id (x ∷ xs) = str_eq x id || among id xs

matching-among :
    (trade : AccountTrade) (orders : Dict Order) (id : String) (o : Order)
    → lookup id orders ≡ some o
    → matches_order trade o ≡ true
    → among id (matching trade orders) ≡ true
unfolding matching among lookup
matching-among trade [] id o l h = cc
matching-among trade ((k, x) ∷ orders) id o l h = elim (Bool-cases (str_eq k id)) [
  | inl e ↦
      let same : x ≡ o = eq_of_some (rw e at l) in
      let h' : matches_order trade x ≡ true = rw same h in ground (arith, e, h')
  | inr e ↦ ground (arith, e, matching-among trade orders id o (rw e at l) h)
]

-- Every id that matches names an order that does.
matching-lookup :
    (trade : AccountTrade) (orders : Dict Order) (id : String)
    → Keyed orders
    → among id (matching trade orders) ≡ true
    → (o : Order) × (lookup id orders ≡ some o) × (matches_order trade o ≡ true)
unfolding matching among lookup
matching-lookup trade [] id k h = cc
matching-lookup trade ((j, x) ∷ orders) id k h = elim (Bool-cases (str_eq j id)) [
  | inl e ↦ elim (Bool-cases (matches_order trade x)) [
    | inl m ↦ (x, ground (arith, e), m)
    | inr m ↦
        let (o, l, _) = matching-lookup trade orders id k.1 (rw m at h) in
        absurd (cc (k.0, (eq_iff j id).0 e, l))
  ]
  | inr e ↦
      let (o, l, y) = matching-lookup trade orders id k.1 (ground (arith, e, h)) in
      (o, ground (arith, e, l), y)
]

only :
    (xs : List String) (id : String)
    → (correlation_of xs).correlation ≡ proven
    → (correlation_of xs).matched_client_order_id ≡ some id
    → xs ≡ id ∷ []
only [] id h k = cc
only (x ∷ []) id h k = ap (λ y. y ∷ []) (eq_of_some k)
only (x ∷ y ∷ xs) id h k = cc

is_absent-IsGiven : (text : Option String) → is_absent (non_empty text) ≡ false → IsGiven text
is_absent-IsGiven none h = cc
is_absent-IsGiven (some s) h = (s, refl, is_empty_lem s (ground (arith, h)))

is_unusable-IsAccountable : (trade : AccountTrade) → is_unusable trade ≡ false → IsAccountable trade
unfolding is_unusable
is_unusable-IsAccountable trade h = record {
  identified = is_absent-IsGiven trade.execution_id (ground (arith, h));
  of_an_order = is_absent-IsGiven trade.order_id (ground (arith, h));
  of_a_symbol = is_absent-IsGiven trade.trade_symbol (ground (arith, h));
  some_quantity = ground (arith, h);
  some_price = ground (arith, h);
  fee_nonneg = ground (arith, h);
}

same_symbol_lem : (a : Option String) (s : String) → same_symbol a s ≡ true → a ≡ some s
same_symbol_lem none s h = cc
same_symbol_lem (some t) s h = ap some (sym ((eq_iff s t).0 h))

same_exchange_order_lem :
    (a b : Option String)
    → same_exchange_order (non_empty a) b ≡ true
    → (x y : String) × (a ≡ some x) × (x ≢ "") × (b ≡ some y) × IsSameId x y
unfolding same_external_order_id
same_exchange_order_lem none b h = cc
same_exchange_order_lem (some x) none h = elim (Bool-cases (is_empty x)) [
  | inl e ↦ absurd (ground (arith, e, h))
  | inr e ↦ absurd (ground (arith, e, h))
]
same_exchange_order_lem (some x) (some y) h = elim (Bool-cases (is_empty x)) [
  | inl e ↦ absurd (ground (arith, e, h))
  | inr e ↦ (x, y, refl, is_empty_lem x e, refl, same_order-IsSameId x y (ground (arith, e, h)))
]

matches_order-IsExecutionOf :
    (trade : AccountTrade) (o : Order) → matches_order trade o ≡ true → IsExecutionOf trade o
unfolding matches_order
matches_order-IsExecutionOf trade o h =
    let (x, y, a, given, b, same) =
      same_exchange_order_lem o.exchange_order_id trade.order_id (ground (arith, h)) in
    record {
      exchange_order_id = x;
      trade_order_id = y;
      has_id = a;
      id_given = given;
      names_order = b;
      same_order_id = same;
      on_symbol = same_symbol_lem trade.trade_symbol o.symbol (ground (arith, h));
      on_side = same_side_lem o.side trade.side (ground (arith, h));
    }

IsExecutionOf-matches_order :
    (trade : AccountTrade) (o : Order) → IsExecutionOf trade o → matches_order trade o ≡ true
unfolding matches_order same_external_order_id
IsExecutionOf-matches_order trade o x =
    rw
      (
        x.has_id,
        not_empty x.exchange_order_id x.id_given,
        x.names_order,
        IsSameId-same_order x.exchange_order_id x.trade_order_id x.same_order_id,
        x.on_symbol,
        eq_refl o.symbol,
        x.on_side,
      )
      (same_side_refl o.side)

-- On a ledger with one entry to an id, an execution that is PROVEN to belong to an order can be accounted: it has an identity, an order, a
-- symbol, a positive quantity and price and a fee that is not negative, its order is on the local
-- ledger with the same exchange order id, symbol and side, and no other order on the ledger is.
pub correlate_execution-proven :
    (trade : AccountTrade) (orders : Dict Order) (id : String)
    → Keyed orders
    → (correlate_execution trade orders).correlation ≡ proven
    → (correlate_execution trade orders).matched_client_order_id ≡ some id
    → IsAccountable trade
      × ((o : Order) × (lookup id orders ≡ some o) × IsExecutionOf trade o)
      × ((other : String) (o : Order)
          → lookup other orders ≡ some o
          → IsExecutionOf trade o
          → other ≡ id)
unfolding correlate_execution among
correlate_execution-proven trade orders id k p m = elim (Bool-cases (is_unusable trade)) [
  | inl e ↦ absurd (ground (arith, e, p))
  | inr e ↦
      let one = only (matching trade orders) id (rw e at p) (rw e at m) in
      let (o, l, matched) =
        matching-lookup trade orders id k (rw one (ground (arith, eq_refl id))) in
      (
        is_unusable-IsAccountable trade e,
        (o, l, matches_order-IsExecutionOf trade o matched),
        λ other o l h.
            let found =
              matching-among trade orders other o l (IsExecutionOf-matches_order trade o h) in
            let found' : among other (id ∷ []) ≡ true = rw one at found in
            sym ((eq_iff id other).0 (ground (arith, found'))),
      )
]
