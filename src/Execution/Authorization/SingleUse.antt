-- ===== src/Execution/Authorization/SingleUse.antt =====
-- execution/ControlledLiveAuthorization.ts: a process that issues and presents authorizations in any
-- order, and how many orders a token lets through.
use cryptotradingbot.Common.{
  ℕ, ◌+◌, ◌≤◌, ◌≡◌, refl, Bool, Option, none, some, List, [], ◌∷◌, String, subst, eq_iff, str_eq,
  if◌then◌else◌, arith, Bool-cases, inl, inr,
}
use cryptotradingbot.Common.Dict.{
  Dict, lookup, insert, Keyed, lookup-insert, lookup-erase, insert-Keyed, erase-Keyed,
}
use cryptotradingbot.Common.Result.{Result, ok, err}
use cryptotradingbot.Money
use cryptotradingbot.Execution.Authorization.{
  ControlledLiveScope, ControlledLiveAuthorization, ControlledOrderLike, is_side,
  create_controlled_live_authorization, is_controlled_live_order,
}
use cryptotradingbot.Execution.Authorization.Scope.{is_controlled_live_order-IsInScope}

-- What a process does with the registry.
pub data Operation : Type 0 where
  issue : ControlledLiveScope → String → Operation
  present : ControlledOrderLike → ControlledLiveAuthorization → Operation

abbrev pub one_if : Bool → ℕ
one_if b = if b then 1 else 0

unfoldable one_if_some : Option ControlledLiveScope → ℕ
one_if_some none = 0
one_if_some (some s) = 1

-- 1 where the registry holds the token.
abbrev held : String → Dict ControlledLiveScope → ℕ
held token issued = one_if_some (lookup token issued)

-- The registry that an attempt to issue leaves; a throw leaves it as it is.
abbrev pub registry_of :
    Dict ControlledLiveScope
    → Result (ControlledLiveAuthorization × Dict ControlledLiveScope)
    → Dict ControlledLiveScope
registry_of before (ok (auth, after)) = after
registry_of before (err e) = before

-- How often a token was issued, and how many orders it let through, in a run.
unfoldable pub issued_count : String → List Operation → ℕ
issued_count token [] = 0
issued_count token (issue scope t ∷ rest) = one_if (str_eq t token) + issued_count token rest
issued_count token (present order auth ∷ rest) = issued_count token rest

unfoldable pub permitted_count : String → Dict ControlledLiveScope → List Operation → ℕ
permitted_count token issued [] = 0
permitted_count token issued (issue scope t ∷ rest) =
    permitted_count token (registry_of issued (create_controlled_live_authorization issued scope t))
      rest
permitted_count token issued (present order auth ∷ rest) =
    let (answer, left) = is_controlled_live_order issued order (some auth) in
    (if answer then one_if (str_eq auth.token token) else 0) + permitted_count token left rest

create-held :
    (issued : Dict ControlledLiveScope) (scope : ControlledLiveScope) (t token : String)
    → Keyed issued
    → let left = registry_of issued (create_controlled_live_authorization issued scope t) in
      Keyed left × (held token left ≤ one_if (str_eq t token) + held token issued)
unfolding create_controlled_live_authorization one_if_some
create-held issued scope t token k =
    let P : Dict ControlledLiveScope → Type 0 =
      λ left. Keyed left × (held token left ≤ one_if (str_eq t token) + held token issued) in
    let same : P issued = (k, omega arith) in
    let added : P (insert t scope issued) = (
      insert-Keyed t scope issued k,
      rw (lookup-insert t token scope issued) (elim (Bool-cases (str_eq t token)) [
        | inl e ↦ rw e (omega arith)
        | inr e ↦ rw e (omega arith)
      ]),
    ) in
    elim (Bool-cases (is_side scope.side)) [
      | inr e ↦ rw e same
      | inl e ↦ rw e (elim (Bool-cases (str_eq scope.order_type "limit")) [
        | inr f ↦ rw f same
        | inl f ↦ rw f (elim (Bool-cases (Money.is_positive scope.max_base_quantity)) [
          | inr g ↦ rw g same
          | inl g ↦ rw g (elim (Bool-cases (Money.is_positive scope.max_quote_notional)) [
            | inr h ↦ rw h same
            | inl h ↦ rw h added
          ])
        ])
      ])
    ]

present-held :
    (issued : Dict ControlledLiveScope) (order : ControlledOrderLike)
    (auth : ControlledLiveAuthorization) (token : String)
    → Keyed issued
    → let (answer, left) = is_controlled_live_order issued order (some auth) in
      Keyed left
      × ((if answer then one_if (str_eq auth.token token) else 0) + held token left
          ≤ held token issued)
unfolding one_if_some
present-held issued order auth token k =
    let (given, refused) = is_controlled_live_order-IsInScope issued order auth in
    elim (Bool-cases (is_controlled_live_order issued order (some auth)).0) [
      | inl e ↦
          let (l, _, f) = given e in
          rw (e, f)
            (
              erase-Keyed auth.token issued k,
              rw (lookup-erase auth.token token issued k)
                  (elim (Bool-cases (str_eq auth.token token)) [
                    | inl b ↦ rw b (
                        subst (λ x. 1 ≤ held x issued) ((eq_iff auth.token token).0 b)
                          (rw l (omega arith)))
                    | inr b ↦ rw b (omega arith)
                  ]),
            )
      | inr e ↦ rw (e, refused e) (k, omega arith)
    ]

permitted_count-at_most_held :
    (token : String) (operations : List Operation) (issued : Dict ControlledLiveScope)
    → Keyed issued
    → permitted_count token issued operations ≤ issued_count token operations + held token issued
unfolding permitted_count issued_count
permitted_count-at_most_held token [] issued k = omega arith
permitted_count-at_most_held token (issue scope t ∷ rest) issued k =
    let (k2, h) = create-held issued scope t token k in
    let r = permitted_count-at_most_held token rest _ k2 in omega arith
permitted_count-at_most_held token (present order auth ∷ rest) issued k =
    let (k2, h) = present-held issued order auth token k in
    let r = permitted_count-at_most_held token rest _ k2 in omega arith

-- From an empty registry, a process lets through at most as many orders on a token as it issued
-- authorizations under it, whatever it is presented and in whatever order; a token that `randomUUID`
-- gave once lets at most one order through.
pub permitted_count-at_most :
    (token : String) (operations : List Operation)
    → permitted_count token [] operations ≤ issued_count token operations
unfolding lookup one_if_some
permitted_count-at_most token operations =
    let h = permitted_count-at_most_held token operations [] tt in
    let e : held token [] ≡ 0 = refl in omega arith
