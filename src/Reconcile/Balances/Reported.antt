-- ===== src/Reconcile/Balances/Reported.antt =====
-- reconcile/balanceReconciliation.ts: what the exchange reports of a currency.
use cryptotradingbot.Common.{
  ◌≡◌, ◌≢◌, ◌⊎◌, ◌∙◌, refl, sym, ap, inl, inr, some, List, str_eq, eq_iff, eq_refl, eq_of_some, [],
  ◌∷◌, String, Bool-cases,
}
use cryptotradingbot.Common.Dict.{Dict, lookup, insert, lookup-insert}
use cryptotradingbot.Portfolio.Model.{Balance}
use cryptotradingbot.Reconcile.Balances.{put_all, by_currency}

-- No balance is in the currency.
abbrev NoneIn : String → List Balance → Type 0
NoneIn currency [] = Unit
NoneIn currency (b ∷ observed) = (b.currency ≢ currency) × NoneIn currency observed

-- The last balance in a currency, which is what the exchange reports of it.
abbrev pub IsReported : String → Balance → List Balance → Type 0
IsReported currency b [] = ⊥
IsReported currency b (x ∷ observed) =
    IsReported currency b observed ⊎ ((x ≡ b) × (x.currency ≡ currency) × NoneIn currency observed)

-- What the map of balances has is the last of the list, or what it had before.
put_all-IsReported :
    (currency : String) (b : Balance) (found : Dict Balance) (observed : List Balance)
    → lookup currency (put_all found observed) ≡ some b
    → IsReported currency b observed ⊎ (NoneIn currency observed × (lookup currency found ≡ some b))
unfolding put_all
put_all-IsReported currency b found [] h = inr (tt, h)
put_all-IsReported currency b found (x ∷ observed) h =
    elim (put_all-IsReported currency b (insert x.currency x found) observed h) [
      | inl later ↦ inl (inl later)
      | inr (none_later, l) ↦
          let l' = sym (lookup-insert x.currency currency x found) ∙ l in
          elim (Bool-cases (str_eq x.currency currency)) [
            | inl e ↦
                inl (inr (eq_of_some (rw e at l'), (eq_iff x.currency currency).0 e, none_later))
            | inr e ↦
                inr (((λ same. cc (rw (same, eq_refl currency) at e)), none_later), rw e at l')
          ]
    ]

put_all-NoneIn :
    (currency : String) (found : Dict Balance) (observed : List Balance)
    → NoneIn currency observed
    → lookup currency (put_all found observed) ≡ lookup currency found
unfolding put_all
put_all-NoneIn currency found [] h = refl
put_all-NoneIn currency found (x ∷ observed) h =
    put_all-NoneIn currency (insert x.currency x found) observed h.1
    ∙ lookup-insert x.currency currency x found
    ∙ (elim (Bool-cases (str_eq x.currency currency)) [
      | inl e ↦ absurd (h.0 ((eq_iff x.currency currency).0 e))
      | inr e ↦ rw e refl
    ])

IsReported-put_all :
    (currency : String) (b : Balance) (found : Dict Balance) (observed : List Balance)
    → IsReported currency b observed
    → lookup currency (put_all found observed) ≡ some b
unfolding put_all
IsReported-put_all currency b found [] h = absurd h
IsReported-put_all currency b found (x ∷ observed) (inl later) =
    IsReported-put_all currency b (insert x.currency x found) observed later
IsReported-put_all currency b found (x ∷ observed) (inr (same, named, none_later)) =
    put_all-NoneIn currency (insert x.currency x found) observed none_later
    ∙ lookup-insert x.currency currency x found
    ∙ rw ((eq_iff x.currency currency).1 named) (ap some same)

pub by_currency-IsReported :
    (currency : String) (b : Balance) (observed : List Balance)
    → lookup currency (by_currency observed) ≡ some b
    → IsReported currency b observed
unfolding by_currency lookup
by_currency-IsReported currency b observed h = elim (put_all-IsReported currency b [] observed h) [
  | inl r ↦ r
  | inr (none_in, l) ↦ cc
]

pub IsReported-by_currency :
    (currency : String) (b : Balance) (observed : List Balance)
    → IsReported currency b observed
    → lookup currency (by_currency observed) ≡ some b
unfolding by_currency
IsReported-by_currency currency b observed r = IsReported-put_all currency b [] observed r
