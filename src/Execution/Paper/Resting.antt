-- ===== src/Execution/Paper/Resting.antt =====
-- execution/PaperExecutionEngine.ts: `openOrders` holds orders of `allOrders`, the very objects, so that
-- what `cancelOrder` writes is seen in the history.
use cryptotradingbot.Common.{
  ℕ, suc, ◌≡◌, refl, ap, sym, ◌∙◌, false, inl, inr, Option, none, some, List, [], ◌∷◌, ◌++◌, String,
  str_eq, eq_iff, Bool-cases, arith, eq_of_some, subst, ◌==◌, ==_iff,
}
use cryptotradingbot.Common.Dict.{
  Keyed, lookup, lookup-insert, lookup-erase, insert-Keyed, erase-Keyed,
}
use cryptotradingbot.Common.Result.{Result}
use cryptotradingbot.Money
use cryptotradingbot.Risk.Doubles.{Doubles}
use cryptotradingbot.Execution.Paper.Model.{
  PaperOrder, PaperOrderRequest, PaperMarket, PaperExecutionConfig, PaperEngine, open_status,
  canceled, length, get_elem?, set_elem,
}
use cryptotradingbot.Execution.Paper.Book.{
  paper_order, pushed, rest_order, cancel_at, cancel_order, restore_executed_order_ids,
}
use cryptotradingbot.Execution.Paper.Effect.{
  Effect, unchanged, noted, booked, rested, submit_market_order-Effect, submit_limit_order-Effect,
  Call, market_call, limit_call, cancel_call, restore_call, after_call, run,
}

-- At a place of the history stands an open order of this id.
abbrev pub IsOpenAt : List PaperOrder → String → ℕ → Type 0
IsOpenAt history id place =
    (o : PaperOrder) × (get_elem? history place ≡ some o)
    × (o.client_order_id ≡ id)
    × (o.order_status ≡ open_status)

-- Every entry of `openOrders` is an open order of the history, under its own id.
abbrev pub IsResting : PaperEngine → Type 0
IsResting s =
    Keyed s.open_orders
    × ((id : String) (place : ℕ)
        → lookup id s.open_orders ≡ some place
        → IsOpenAt s.all_orders id place)

get_elem?-++ :
    (history more : List PaperOrder) (place : ℕ) (o : PaperOrder)
    → get_elem? history place ≡ some o
    → get_elem? (history ++ more) place ≡ some o
unfolding get_elem?
get_elem?-++ [] more place o h = absurd (ground (arith, h))
get_elem?-++ (x ∷ rest) more ℕ.zero o h = h
get_elem?-++ (x ∷ rest) more (suc place) o h = get_elem?-++ rest more place o h

get_elem?-length :
    (history : List PaperOrder) (o : PaperOrder)
    → get_elem? (history ++ (o ∷ [])) (length history) ≡ some o
unfolding get_elem? length
get_elem?-length [] o = refl
get_elem?-length (x ∷ rest) o = get_elem?-length rest o

get_elem?-set_elem :
    (history : List PaperOrder) (i j : ℕ) (y : PaperOrder)
    → (i == j) ≡ false
    → get_elem? (set_elem history i y) j ≡ get_elem? history j
unfolding get_elem? set_elem
get_elem?-set_elem [] i j y h = refl
get_elem?-set_elem (x ∷ rest) ℕ.zero ℕ.zero y h = absurd (ground (arith, h))
get_elem?-set_elem (x ∷ rest) ℕ.zero (suc j) y h = refl
get_elem?-set_elem (x ∷ rest) (suc i) ℕ.zero y h = refl
get_elem?-set_elem (x ∷ rest) (suc i) (suc j) y h =
    get_elem?-set_elem rest i j y (ground (arith, h))

pushed-IsResting : (o : PaperOrder) (s : PaperEngine) → IsResting s → IsResting (pushed o s)
pushed-IsResting o s (keyed, v) = (
  keyed,
  λ id place e.
      let (x, at, named, unfilled) = v id place e in
      (x, get_elem?-++ s.all_orders (o ∷ []) place x at, named, unfilled),
)

rest_order-IsResting :
    (req : PaperOrderRequest) (now_ms : ℕ) (s : PaperEngine)
    → IsResting s
    → IsResting (rest_order req now_ms s).1
unfolding rest_order paper_order
rest_order-IsResting req now_ms s (keyed, v) =
    let key = req.client_order_id in
    let at_end = length s.all_orders in
    let order = paper_order req open_status [] Money.zero none Money.zero now_ms in
    (
      insert-Keyed key at_end s.open_orders keyed,
      λ id place e. elim (Bool-cases (str_eq key id)) [
        | inl q ↦
            let place_is : at_end ≡ place =
              eq_of_some (rw (lookup-insert key id at_end s.open_orders, q) at e) in
            subst (IsOpenAt (s.all_orders ++ (order ∷ [])) id) place_is
              (order, get_elem?-length s.all_orders order, (eq_iff key id).0 q, refl)
        | inr q ↦
            let (x, at, named, unfilled) =
              v id place (rw (lookup-insert key id at_end s.open_orders, q) at e) in
            (x, get_elem?-++ s.all_orders (order ∷ []) place x at, named, unfilled)
      ],
    )

none_ne_some : {A : Type 0} {a : A} → none ≡ some a → ⊥
none_ne_some h = cc

-- Orders of two ids stand at two places.
places_differ :
    (history : List PaperOrder) (key id : String) (i j : ℕ) (old x : PaperOrder)
    → get_elem? history i ≡ some old
    → get_elem? history j ≡ some x
    → old.client_order_id ≡ key
    → x.client_order_id ≡ id
    → str_eq key id ≡ false
    → (i == j) ≡ false
places_differ history key id i j old x at at' named named' q = elim (Bool-cases (i == j)) [
  | inr n ↦ n
  | inl y ↦
      let same : old ≡ x = eq_of_some (sym at ∙ ap (get_elem? history) ((==_iff i j).0 y) ∙ at') in
      let ids : key ≡ id = sym named ∙ ap (λ (o : PaperOrder). o.client_order_id) same ∙ named' in
      absurd (ground (arith, q, (eq_iff key id).1 ids))
]

cancel_at-IsResting :
    (key : String) (now_ms : ℕ) (place : Option ℕ) (s : PaperEngine)
    → lookup key s.open_orders ≡ place
    → IsResting s
    → IsResting (cancel_at key now_ms place s).1
unfolding cancel_at
cancel_at-IsResting key now_ms none s e v = v
cancel_at-IsResting key now_ms (some place) s e (keyed, v) =
    let (old, at, named, _) = v key place e in
    let o : PaperOrder = record old { order_status = canceled; updated_at_ms = now_ms } in
    rw (at, cancel_at)
      (
        erase-Keyed key s.open_orders keyed,
        λ id p e'. elim (Bool-cases (str_eq key id)) [
          | inl q ↦ absurd (none_ne_some (rw (lookup-erase key id s.open_orders keyed, q) at e'))
          | inr q ↦
              let (x, at', named', unfilled) =
                v id p (rw (lookup-erase key id s.open_orders keyed, q) at e') in
              let elsewhere =
                places_differ s.all_orders key id place p old x at at' named named' q in
              (x, get_elem?-set_elem s.all_orders place p o elsewhere ∙ at', named', unfilled)
        ],
      )

module _ {F : Type 0} (d : Doubles F) (cfg : PaperExecutionConfig F) where
  Effect-IsResting :
      (req : PaperOrderRequest) (market : PaperMarket) (now_ms : ℕ) (s : PaperEngine)
      (a : Result PaperOrder) (t : PaperEngine)
      → Effect d cfg req market now_ms s a t
      → IsResting s
      → IsResting t
  Effect-IsResting req market now_ms s a t (unchanged why threw e) v = rw e v
  Effect-IsResting req market now_ms s a t (noted o named e) v = rw e (pushed-IsResting o s v)
  Effect-IsResting req market now_ms s a t (booked o x next named sim within f e) v =
      rw e (pushed-IsResting o s v)
  Effect-IsResting req market now_ms s a t (rested e) v = rw e (rest_order-IsResting req now_ms s v)

  after_call-IsResting :
      (c : Call) (s : PaperEngine) → IsResting s → IsResting (after_call d cfg c s)
  unfolding cancel_order restore_executed_order_ids
  after_call-IsResting (market_call req market now_ms) s v =
      Effect-IsResting req market now_ms s _ _
        (submit_market_order-Effect d cfg req market now_ms s) v
  after_call-IsResting (limit_call req market now_ms) s v =
      Effect-IsResting req market now_ms s _ _ (submit_limit_order-Effect d cfg req market now_ms s)
        v
  after_call-IsResting (cancel_call key now_ms) s v =
      cancel_at-IsResting key now_ms (lookup key s.open_orders) s refl v
  after_call-IsResting (restore_call ids) s v = v

  -- From an engine of which this holds, such as a new one, whatever is submitted, cancelled and restored:
  -- every order that `openOrders` has under an id is an order of the history with that id and status OPEN.
  pub run-IsResting :
      (calls : List Call) (s : PaperEngine) → IsResting s → IsResting (run d cfg calls s)
  unfolding run
  run-IsResting [] s v = v
  run-IsResting (c ∷ rest) s v =
      run-IsResting rest (after_call d cfg c s) (after_call-IsResting c s v)
