-- ===== src/Execution/Session/Budget.antt =====
-- execution/AutonomousLiveSession.ts: a process that creates, ends and uses sessions in any order, and
-- what a session lets through.
use cryptotradingbot.Common.{
  ℕ, ◌+◌, ◌≡◌, ◌⊎◌, refl, sym, ◌∙◌, ap, subst, true, false, Option, none, some, List, [], ◌∷◌,
  String, str_eq, eq_iff, if◌then◌else◌, arith, Bool-cases, Option-cases, inl, inr,
}
use cryptotradingbot.Common.Int.{ℤ, pos, ◌+ℤ◌, ◌≤ℤ◌, int_laws, zero_+ℤ}
use cryptotradingbot.Common.Dict.{
  Dict, lookup, insert, Keyed, lookup-insert, lookup-insert_self, lookup-erase, insert-Keyed,
  erase-Keyed,
}
use cryptotradingbot.Common.Result.{ok, ok-injective}
use cryptotradingbot.Money
use cryptotradingbot.Money.{Money}
use cryptotradingbot.Execution.Session.{
  AutonomousLiveScope, AutonomousLiveSession, SessionState, AutonomousOrderLike,
  create_autonomous_live_session, end_autonomous_live_session, is_valid_session_scope,
  genuine_state, refusal_of, price_or_zero, used, evaluate_autonomous_live_order,
  authorize_autonomous_live_order,
}
use cryptotradingbot.Execution.Session.Uses.{
  Use, create, finish, authorize, sessions_of, sessions_after, is_let_through, let_through,
  one_if_some, notional_of, orders_through, notional_through, NotIssuedBy, NotIssued,
}

-- What is let through stays within what is left of the budget.
abbrev Within : Option SessionState → ℕ → Money → Type 0
Within none n q = (n ≡ 0) × (q ≡ pos 0)
Within (some s) n q =
    pos s.orders ≤ℤ s.scope.max_session_orders
    → s.quote_notional ≤ℤ s.scope.max_session_quote_notional
    → (pos (s.orders + n) ≤ℤ s.scope.max_session_orders)
      × (s.quote_notional +ℤ q ≤ℤ s.scope.max_session_quote_notional)

refusal_of_none :
    (order : AutonomousOrderLike) (s : SessionState)
    → refusal_of order s ≡ none
    → (pos (s.orders + 1) ≤ℤ s.scope.max_session_orders)
      × (s.quote_notional +ℤ Money.mul order.quantity (price_or_zero order.price)
          ≤ℤ s.scope.max_session_quote_notional)
unfolding refusal_of
refusal_of_none order s h = ground (arith, h)

genuine_state-some :
    (o : Option SessionState) (v : AutonomousLiveSession) (now_ms : ℤ) {s : SessionState}
    → genuine_state o v now_ms ≡ some s
    → o ≡ some s
unfolding genuine_state
genuine_state-some none v now_ms h = cc
genuine_state-some (some i) v now_ms h = ground (arith, h)

-- What an authorization comes to: a refusal that changes nothing, or an order within the budget.
authorize_cases :
    (sessions : Dict SessionState) (order : AutonomousOrderLike) (session : AutonomousLiveSession)
    (now_ms : ℤ)
    → let (answer, after) = authorize_autonomous_live_order sessions order session now_ms in
      ((is_let_through answer ≡ false) × (after ≡ sessions))
      ⊎ ((s : SessionState) × (lookup session.token sessions ≡ some s)
          × (is_let_through answer ≡ true)
          × (after ≡ insert session.token (used s order) sessions)
          × (refusal_of order s ≡ none))
unfolding authorize_autonomous_live_order evaluate_autonomous_live_order
authorize_cases sessions order session now_ms =
    elim (Option-cases (genuine_state (lookup session.token sessions) session now_ms)) [
      | inl e ↦ inl (ground (arith, e), ground (arith, e))
      | inr (s, e) ↦
          let l = genuine_state-some (lookup session.token sessions) session now_ms e in
          elim (Option-cases (refusal_of order s)) [
            | inl f ↦ inr (s, l, ground (arith, e, f), ground (arith, e, f, l), f)
            | inr (why, f) ↦ inl (ground (arith, e, f), ground (arith, e, f))
          ]
    ]

Within-zero :
    (o : Option SessionState) (n : ℕ) (q : Money) → Within o n q → Within o (0 + n) (pos 0 +ℤ q)
Within-zero o n q w =
    let e : 0 + n ≡ n = omega arith in
    subst (λ m. Within o m (pos 0 +ℤ q)) (sym e) (subst (Within o n) (sym (zero_+ℤ q)) w)

Within-spent : (o : Option SessionState) → Within o 0 (pos 0)
Within-spent none = (refl, refl)
Within-spent (some s) = λ h k. (omega arith, omega (int_laws, k))

-- From the budget left after an order, the budget before it.
Within-used :
    (s : SessionState) (order : AutonomousOrderLike) (n : ℕ) (q : Money)
    → refusal_of order s ≡ none
    → Within (some (used s order)) n q
    → Within (some s) (1 + n) (Money.mul order.quantity (price_or_zero order.price) +ℤ q)
Within-used s order n q within w = λ h k.
    let (r, t) = refusal_of_none order s within in
    let (a, b) = w r t in (omega (arith, a), omega (int_laws, b))

create_elsewhere :
    (token t : String) (sessions : Dict SessionState) (scope : AutonomousLiveScope)
    → str_eq t token ≡ false
    → lookup token (sessions_of sessions (create_autonomous_live_session sessions scope t))
      ≡ lookup token sessions
unfolding create_autonomous_live_session
create_elsewhere token t sessions scope f = ground (
  arith,
  f,
  lookup-insert t token (record { scope = scope; orders = 0; quote_notional = Money.zero })
      sessions,
)

-- A use takes from the budget what it lets through.
Within-step :
    (token : String) (sessions : Dict SessionState) (u : Use)
    → Keyed sessions
    → NotIssuedBy token u
    → (n : ℕ) (q : Money) → Within (lookup token (sessions_after sessions u)) n q
    → Within
        (lookup token sessions)
        (one_if_some (let_through token sessions u) + n)
        (notional_of (let_through token sessions u) +ℤ q)
unfolding sessions_after let_through
Within-step token sessions (create scope t) k f n q w =
    Within-zero _ n q (subst (λ o. Within o n q) (create_elsewhere token t sessions scope f) w)
Within-step token sessions (finish t) k f n q w = elim (Bool-cases (str_eq t token)) [
  | inl e ↦
      let gone : lookup token (end_autonomous_live_session sessions t) ≡ none =
        unfold end_autonomous_live_session in
        (lookup-erase t token sessions k ∙ ap (λ b. if b then none else lookup token sessions) e) in
      let (a, b) = subst (λ o. Within o n q) gone w in
      rw (a, b)
        (Within-zero (lookup token sessions) 0 (pos 0) (Within-spent (lookup token sessions)))
  | inr e ↦
      let same : lookup token (end_autonomous_live_session sessions t) ≡ lookup token sessions =
        unfold end_autonomous_live_session in
        (lookup-erase t token sessions k ∙ ap (λ b. if b then none else lookup token sessions) e) in
      Within-zero _ n q (subst (λ o. Within o n q) same w)
]
Within-step token sessions (authorize order session now_ms) k f n q w =
    elim (authorize_cases sessions order session now_ms) [
      | inl (e, same) ↦
          let nothing : let_through token sessions (authorize order session now_ms) ≡ none =
            ground (arith, e) in
          rw nothing (Within-zero _ n q (subst (λ m. Within (lookup token m) n q) same w))
      | inr (s, l, e, after, within) ↦ elim (Bool-cases (str_eq session.token token)) [
        | inl b ↦
            let here = (eq_iff session.token token).0 b in
            rw (b, e)
              (subst (λ t. Within (lookup t sessions) (1 + n) (notional_of (some order) +ℤ q)) here
                (rw l (
                  Within-used s order n q within (
                    subst (λ o. Within o n q)
                      (lookup-insert session.token token (used s order) sessions
                        ∙ ap (λ b. if b then some (used s order) else lookup token sessions) b)
                      (subst (λ m. Within (lookup token m) n q) after w)))))
        | inr b ↦ rw b (
            Within-zero _ n q (
              subst (λ o. Within o n q)
                (lookup-insert session.token token (used s order) sessions
                  ∙ ap (λ b. if b then some (used s order) else lookup token sessions) b)
                (subst (λ m. Within (lookup token m) n q) after w)))
      ]
    ]

sessions_after-Keyed :
    (sessions : Dict SessionState) (u : Use) → Keyed sessions → Keyed (sessions_after sessions u)
unfolding sessions_after create_autonomous_live_session end_autonomous_live_session
sessions_after-Keyed sessions (create scope t) k = ground (
  arith,
  insert-Keyed t (record { scope = scope; orders = 0; quote_notional = Money.zero }) sessions k,
)
sessions_after-Keyed sessions (finish t) k = erase-Keyed t sessions k
sessions_after-Keyed sessions (authorize order session now_ms) k =
    elim (authorize_cases sessions order session now_ms) [
      | inl (e, same) ↦ rw same k
      | inr (s, l, e, after, within) ↦
          rw after (insert-Keyed session.token (used s order) sessions k)
    ]

Within-run :
    (token : String) (uses : List Use) (sessions : Dict SessionState)
    → Keyed sessions
    → NotIssued token uses
    → Within
        (lookup token sessions)
        (orders_through token sessions uses)
        (notional_through token sessions uses)
unfolding orders_through notional_through
Within-run token [] sessions k f = Within-spent (lookup token sessions)
Within-run token (u ∷ rest) sessions k f =
    Within-step token sessions u k f.0 _ _
      (Within-run token rest (sessions_after sessions u) (sessions_after-Keyed sessions u k) f.1)

is_valid_session_scope-positive :
    (scope : AutonomousLiveScope)
    → is_valid_session_scope scope ≡ true
    → (pos 0 ≤ℤ scope.max_session_orders) × (pos 0 ≤ℤ scope.max_session_quote_notional)
unfolding is_valid_session_scope
is_valid_session_scope-positive scope v = ground (arith, v)

-- After createAutonomousLiveSession, whatever the process then creates, ends and presents, as long as
-- randomUUID does not give the session's token again, the orders let through on the token are at most
-- the scope's maxSessionOrders and their notional adds up to at most its maxSessionQuoteNotional.
pub create-within_budget :
    (sessions : Dict SessionState) (scope : AutonomousLiveScope) (token : String)
    (session : AutonomousLiveSession) (issued : Dict SessionState) (uses : List Use)
    → Keyed sessions
    → create_autonomous_live_session sessions scope token ≡ ok (session, issued)
    → NotIssued token uses
    → (pos (orders_through token issued uses) ≤ℤ scope.max_session_orders)
      × (notional_through token issued uses ≤ℤ scope.max_session_quote_notional)
unfolding create_autonomous_live_session
create-within_budget sessions scope token session issued uses k e f =
    elim (Bool-cases (is_valid_session_scope scope)) [
      | inl v ↦
          let start : SessionState = record {
            scope = scope;
            orders = 0;
            quote_notional = Money.zero;
          } in
          let d : issued ≡ insert token start sessions =
            ap (λ (r : AutonomousLiveSession × Dict SessionState). r.1)
              (sym (ok-injective (rw v at e))) in
          let (orders_pos, notional_pos) = is_valid_session_scope-positive scope v in
          let fresh : lookup token issued ≡ some start =
            rw d (lookup-insert_self token start sessions) in
          let w =
            subst
              (λ o.
                Within o (orders_through token issued uses) (notional_through token issued uses))
              fresh (Within-run token uses issued (rw d (insert-Keyed token start sessions k)) f) in
          let (a, b) = w orders_pos notional_pos in (omega (arith, a), omega (int_laws, b))
      | inr v ↦ cc (rw v at e)
    ]
