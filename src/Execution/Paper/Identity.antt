-- ===== src/Execution/Paper/Identity.antt =====
-- execution/PaperExecutionEngine.ts: no order id that the engine has seen is dropped from
-- `executedOrderIds`, which is what a save persists.
use cryptotradingbot.Common.{
  ℕ, suc, ◌≡◌, refl, ap, sym, ◌∙◌, Bool, true, false, ◌||◌, inl, inr, Option, none, some, List, [],
  ◌∷◌, ◌++◌, String, str_eq, eq_iff, Bool-cases, Option-cases, arith, eq_of_some,
}
use cryptotradingbot.Common.Dict.{lookup}
use cryptotradingbot.Common.Result.{Result, ok}
use cryptotradingbot.Portfolio.Equity.{member, include}
use cryptotradingbot.Portfolio.Ids.{is_empty}
use cryptotradingbot.Risk.Doubles.{Doubles}
use cryptotradingbot.Execution.Paper.Model.{
  PaperOrderRequest, PaperOrder, PaperMarket, PaperExecutionConfig, PaperEngine, get_elem?,
  set_elem,
}
use cryptotradingbot.Execution.Paper.{submit_market_order, submit_limit_order}
use cryptotradingbot.Execution.Paper.Book.{
  known_after, restore_executed_order_ids, with_ids_of, executed_order_ids, paper_order, pushed,
  rest_order, cancel_at, cancel_order,
}
use cryptotradingbot.Execution.Paper.Effect.{
  Effect, unchanged, noted, booked, rested, submit_market_order-Effect, submit_limit_order-Effect,
  Call, market_call, limit_call, cancel_call, restore_call, after_call, run,
}

true_ne_false : true ≡ false → ⊥
true_ne_false h = cc

member-include :
    (a b : String) (ids : List String) → member a (include b ids) ≡ (str_eq b a || member a ids)
unfolding member include
member-include a b [] = ground arith
member-include a b (t ∷ ts) =
    ground (arith, member-include a b ts, eq_iff t b, eq_iff t a, eq_iff b a)

-- Whether an order of a history has an id.
has_order : String → List PaperOrder → Bool
has_order id [] = false
has_order id (o ∷ rest) = str_eq o.client_order_id id || has_order id rest

member-with_ids_of :
    (id : String) (ids : List String) (history : List PaperOrder)
    → member id (with_ids_of ids history) ≡ (member id ids || has_order id history)
unfolding with_ids_of has_order
member-with_ids_of id ids [] = ground arith
member-with_ids_of id ids (o ∷ rest) = ground (
  arith,
  member-with_ids_of id (include o.client_order_id ids) rest,
  member-include id o.client_order_id ids,
)

has_order-++ :
    (id : String) (history more : List PaperOrder)
    → has_order id (history ++ more) ≡ (has_order id history || has_order id more)
unfolding has_order
has_order-++ id [] more = refl
has_order-++ id (o ∷ rest) more = ground (arith, has_order-++ id rest more)

-- An order replaced by one of the same id.
has_order-set_elem :
    (id : String) (history : List PaperOrder) (place : ℕ) (old o : PaperOrder)
    → get_elem? history place ≡ some old
    → o.client_order_id ≡ old.client_order_id
    → has_order id (set_elem history place o) ≡ has_order id history
unfolding has_order get_elem? set_elem
has_order-set_elem id [] place old o at same = absurd (ground (arith, at))
has_order-set_elem id (x ∷ rest) ℕ.zero old o at same = rw (same, sym (eq_of_some at)) refl
has_order-set_elem id (x ∷ rest) (suc place) old o at same =
    rw (has_order-set_elem id rest place old o at same) refl

known_after-keeps :
    (id : String) (known ids : List String)
    → member id known ≡ true
    → member id (known_after known ids) ≡ true
unfolding known_after
known_after-keeps id known [] h = h
known_after-keeps id known (String.[] ∷ rest) h = known_after-keeps id known rest h
known_after-keeps id known (String.◌∷◌ c t ∷ rest) h =
    known_after-keeps id (include (String.◌∷◌ c t) known) rest
      (rw (member-include id (String.◌∷◌ c t) known, h) (ground arith))

known_after-adds :
    (id : String) (known ids : List String)
    → is_empty id ≡ false
    → member id ids ≡ true
    → member id (known_after known ids) ≡ true
unfolding known_after member
known_after-adds id known [] full h = absurd (ground (arith, h))
known_after-adds id known (String.[] ∷ rest) full h = elim (Bool-cases (str_eq "" id)) [
  | inl e ↦ absurd (true_ne_false (ap is_empty ((eq_iff "" id).0 e) ∙ full))
  | inr e ↦ known_after-adds id known rest full (rw e at h)
]
known_after-adds id known (String.◌∷◌ c t ∷ rest) full h =
    let s = String.◌∷◌ c t in
    elim (Bool-cases (str_eq s id)) [
      | inl e ↦ known_after-keeps id (include s known) rest (rw (member-include id s known, e) refl)
      | inr e ↦ known_after-adds id (include s known) rest full (rw e at h)
    ]

abbrev Executed : String → PaperEngine → Type 0
Executed id s = member id (executed_order_ids s) ≡ true

-- A history that has the orders of another, and the known ids, has the executed ids.
grown-Executed :
    (id : String) (s t : PaperEngine)
    → (member id s.known_executed_ids ≡ true → member id t.known_executed_ids ≡ true)
    → (has_order id s.all_orders ≡ true → has_order id t.all_orders ≡ true)
    → Executed id s
    → Executed id t
unfolding executed_order_ids
grown-Executed id s t known orders h = ground (
  arith,
  member-with_ids_of id s.known_executed_ids s.all_orders,
  member-with_ids_of id t.known_executed_ids t.all_orders,
  known,
  orders,
  h,
)

-- The executed ids after an order is recorded.
member-pushed :
    (id : String) (o : PaperOrder) (s : PaperEngine)
    → member id (executed_order_ids (pushed o s))
      ≡ (member id (executed_order_ids s) || str_eq o.client_order_id id)
unfolding executed_order_ids has_order
member-pushed id o s = ground (
  arith,
  member-with_ids_of id s.known_executed_ids (s.all_orders ++ (o ∷ [])),
  member-with_ids_of id s.known_executed_ids s.all_orders,
  has_order-++ id s.all_orders (o ∷ []),
)

pushed_keeps :
    (id : String) (o : PaperOrder) (s : PaperEngine) → Executed id s → Executed id (pushed o s)
pushed_keeps id o s h = rw (member-pushed id o s, h) refl

pushed_adds :
    (id : String) (o : PaperOrder) (s : PaperEngine)
    → o.client_order_id ≡ id
    → Executed id (pushed o s)
pushed_adds id o s e = ground (arith, member-pushed id o s, eq_iff o.client_order_id id, e)

module _ {F : Type 0} (d : Doubles F) (cfg : PaperExecutionConfig F) where
  Effect-keeps :
      (id : String) (req : PaperOrderRequest) (market : PaperMarket) (now_ms : ℕ) (s : PaperEngine)
      (a : Result PaperOrder) (t : PaperEngine)
      → Effect d cfg req market now_ms s a t
      → Executed id s
      → Executed id t
  unfolding rest_order executed_order_ids
  Effect-keeps id req market now_ms s a t (unchanged why threw e) h = rw e h
  Effect-keeps id req market now_ms s a t (noted o named e) h = rw e (pushed_keeps id o s h)
  Effect-keeps id req market now_ms s a t (booked o x next named sim within f e) h =
      rw e (pushed_keeps id o s h)
  Effect-keeps id req market now_ms s a t (rested e) h = rw e (pushed_keeps id _ s h)

  Effect-adds :
      (req : PaperOrderRequest) (market : PaperMarket) (now_ms : ℕ) (s : PaperEngine)
      (a : Result PaperOrder) (t : PaperEngine) (order : PaperOrder)
      → Effect d cfg req market now_ms s a t
      → a ≡ ok order
      → Executed req.client_order_id t
  unfolding rest_order executed_order_ids paper_order
  Effect-adds req market now_ms s a t order (unchanged why threw e) h = cc
  Effect-adds req market now_ms s a t order (noted o named e) h =
      rw e (pushed_adds req.client_order_id o s named)
  Effect-adds req market now_ms s a t order (booked o x next named sim within f e) h =
      rw e (pushed_adds req.client_order_id o s named)
  Effect-adds req market now_ms s a t order (rested e) h =
      rw e (pushed_adds req.client_order_id _ s refl)

  cancel_at-keeps :
      (id key : String) (now_ms : ℕ) (place : Option ℕ) (s : PaperEngine)
      → Executed id s
      → Executed id (cancel_at key now_ms place s).1
  unfolding cancel_at
  cancel_at-keeps id key now_ms none s h = h
  cancel_at-keeps id key now_ms (some place) s h =
      elim (Option-cases (get_elem? s.all_orders place)) [
        | inl e ↦ rw (e, cancel_at) h
        | inr (old, e) ↦
            rw (e, cancel_at)
              (grown-Executed id s _ (λ k. k)
                (λ k. has_order-set_elem id s.all_orders place old _ e refl ∙ k) h)
      ]

  after_call-keeps :
      (id : String) (c : Call) (s : PaperEngine)
      → Executed id s
      → Executed id (after_call d cfg c s)
  unfolding cancel_order restore_executed_order_ids
  after_call-keeps id (market_call req market now_ms) s h =
      Effect-keeps id req market now_ms s _ _ (submit_market_order-Effect d cfg req market now_ms s)
        h
  after_call-keeps id (limit_call req market now_ms) s h =
      Effect-keeps id req market now_ms s _ _ (submit_limit_order-Effect d cfg req market now_ms s)
        h
  after_call-keeps id (cancel_call key now_ms) s h =
      cancel_at-keeps id key now_ms (lookup key s.open_orders) s h
  after_call-keeps id (restore_call ids) s h =
      grown-Executed id s _ (known_after-keeps id s.known_executed_ids ids) (λ k. k) h

  run-keeps :
      (id : String) (calls : List Call) (s : PaperEngine)
      → Executed id s
      → Executed id (run d cfg calls s)
  unfolding run
  run-keeps id [] s h = h
  run-keeps id (c ∷ rest) s h = run-keeps id rest (after_call d cfg c s) (after_call-keeps id c s h)

  -- A call names an id: a submission under it that returns an order, or its restoration.
  abbrev pub Names : Call → PaperEngine → String → Type 0
  Names (market_call req market now_ms) s id =
      (order : PaperOrder) × ((submit_market_order d cfg req market now_ms s).0 ≡ ok order)
      × (req.client_order_id ≡ id)
  Names (limit_call req market now_ms) s id =
      (order : PaperOrder) × ((submit_limit_order d cfg req market now_ms s).0 ≡ ok order)
      × (req.client_order_id ≡ id)
  Names (cancel_call key now_ms) s id = ⊥
  Names (restore_call ids) s id = (is_empty id ≡ false) × (member id ids ≡ true)

  after_call-adds :
      (id : String) (c : Call) (s : PaperEngine) → Names c s id → Executed id (after_call d cfg c s)
  unfolding restore_executed_order_ids executed_order_ids
  after_call-adds id (market_call req market now_ms) s (order, returned, named) = rw (sym named) (
      Effect-adds req market now_ms s _ _ order
        (submit_market_order-Effect d cfg req market now_ms s) returned)
  after_call-adds id (limit_call req market now_ms) s (order, returned, named) = rw (sym named) (
      Effect-adds req market now_ms s _ _ order
        (submit_limit_order-Effect d cfg req market now_ms s) returned)
  after_call-adds id (cancel_call key now_ms) s named = absurd named
  after_call-adds id (restore_call ids) s (full, given) = ground (
    arith,
    member-with_ids_of id (known_after s.known_executed_ids ids) s.all_orders,
    known_after-adds id s.known_executed_ids ids full given,
  )

  -- An id that is restored and not empty, or under which a submission returns an order, filled, resting or
  -- rejected, is among `executedOrderIds` from then on, whatever is submitted, cancelled or restored later.
  pub run-remembers :
      (id : String) (c : Call) (later : List Call) (s : PaperEngine)
      → Names c s id
      → member id (executed_order_ids (run d cfg later (after_call d cfg c s))) ≡ true
  run-remembers id c later s h =
      run-keeps id later (after_call d cfg c s) (after_call-adds id c s h)
