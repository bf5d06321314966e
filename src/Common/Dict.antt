-- ===== src/Common/Dict.antt =====
-- JavaScript's `Map` with text keys, in insertion order.
use Prim.Native.String.{String}
use text.Mathlib.Text.{◌==◌}
use text.Mathlib.TextEquality.{eq_iff}
use text.Mathlib.TextPositions.{eq_refl}
use mathlib.Core.Path.{◌≡◌, refl, sym, subst}
use mathlib.Core.Logic.{inl, inr}
use mathlib.Core.Bool.{Bool, true, false}
use mathlib.Core.Option.{Option, none, some}
use mathlib.Core.List.{List, [], ◌∷◌}
use native.Mathlib.Omega.{arith}
use cryptotradingbot.Common.Tests.{if◌then◌else◌, Bool-cases}

abbrev pub Dict : Type 0 → Type 0
Dict V = List (String × V)

module _ {V : Type 0} where
  -- `m.get(k)`
  unfoldable pub lookup : String → Dict V → Option V
  lookup key [] = none
  lookup key ((head, value) ∷ rest) = if head == key then some value else lookup key rest

  -- `m.has(k)`
  abbrev pub contains : String → Dict V → Bool
  contains k m = elim (lookup k m) [ none ↦ false | some _ ↦ true ]

  -- `m.get(k) ?? d`
  abbrev pub get_or : String → Dict V → V → V
  get_or k m d = elim (lookup k m) [ none ↦ d | some v ↦ v ]

  -- `m.set(k, v)`: a known key keeps its place, a new one goes to the end
  unfoldable pub insert : String → V → Dict V → Dict V
  insert key value [] = (key, value) ∷ []
  insert key value ((head, old) ∷ rest) =
      if head == key then (head, value) ∷ rest else (head, old) ∷ insert key value rest

  -- `m.delete(k)`
  unfoldable pub erase : String → Dict V → Dict V
  erase k [] = []
  erase k ((j, w) ∷ m) = if j == k then m else (j, w) ∷ erase k m

  -- Every key occurs once, as in any `Map`.
  abbrev pub Keyed : Dict V → Type 0
  Keyed [] = Unit
  Keyed ((k, v) ∷ m) = (lookup k m ≡ none) × Keyed m

  -- Every entry satisfies a predicate on its key and value.
  abbrev pub All : (String → V → Type 0) → Dict V → Type 0
  All P [] = Unit
  All P ((k, v) ∷ m) = P k v × All P m

  -- What a lookup sees past a `set`.
  pub lookup-insert :
      (new key : String) (value : V) (entries : Dict V)
      → lookup key (insert new value entries)
        ≡ (if new == key then some value else lookup key entries)
  unfolding insert lookup
  lookup-insert new key value [] = refl
  lookup-insert new key value ((head, old) ∷ rest) =
      ground
        (arith, lookup-insert new key value rest, eq_iff head new, eq_iff head key, eq_iff new key)

  pub lookup-insert_self :
      (key : String) (value : V) (entries : Dict V)
      → lookup key (insert key value entries) ≡ some value
  lookup-insert_self key value entries = rw (lookup-insert key key value entries, eq_refl key)

  pub lookup-erase :
      (k j : String) (m : Dict V)
      → Keyed m
      → lookup j (erase k m) ≡ (if k == j then none else lookup j m)
  unfolding lookup erase
  lookup-erase k j [] h = ground arith
  lookup-erase k j ((i, w) ∷ m) h =
      ground (arith, eq_iff k j, eq_iff i k, eq_iff i j, lookup-erase k j m h.1)

  pub insert-Keyed : (k : String) (v : V) (m : Dict V) → Keyed m → Keyed (insert k v m)
  unfolding insert lookup
  insert-Keyed k v [] h = (refl, tt)
  insert-Keyed k v ((i, w) ∷ m) h =
      ground (arith, eq_iff i k, eq_iff k i, insert-Keyed k v m h.1, lookup-insert k i v m)

  pub erase-Keyed : (k : String) (m : Dict V) → Keyed m → Keyed (erase k m)
  unfolding erase
  erase-Keyed k [] h = tt
  erase-Keyed k ((i, w) ∷ m) h = ground (arith, erase-Keyed k m h.1, lookup-erase k i m h.1)

  module _ (P : String → V → Type 0) where
    pub All-insert : (k : String) (v : V) (m : Dict V) → All P m → P k v → All P (insert k v m)
    unfolding insert
    All-insert k v [] h p = (p, tt)
    All-insert k v ((i, w) ∷ m) h p = elim (Bool-cases (i == k)) [
      | inl e ↦ rw e (subst (λ x. P x v) (sym ((eq_iff i k).0 e)) p, h.1)
      | inr e ↦ rw e (h.0, All-insert k v m h.1 p)
    ]

    pub All-erase : (k : String) (m : Dict V) → All P m → All P (erase k m)
    unfolding erase
    All-erase k [] h = tt
    All-erase k ((i, w) ∷ m) h = elim (Bool-cases (i == k)) [
      | inl e ↦ rw e h.1
      | inr e ↦ rw e (h.0, All-erase k m h.1)
    ]

    pub All-lookup : (k : String) (v : V) (m : Dict V) → All P m → lookup k m ≡ some v → P k v
    unfolding lookup
    All-lookup k v [] h e = cc
    All-lookup k v ((i, w) ∷ m) h e = elim (Bool-cases (i == k)) [
      | inl b ↦ subst (λ x. P x v) ((eq_iff i k).0 b) (subst (P i) (ground (arith, b, e)) h.0)
      | inr b ↦ All-lookup k v m h.1 (rw b at e)
    ]

    -- What is put in and taken out again need not satisfy the predicate.
    pub All-erase-insert :
        (k : String) (v : V) (m : Dict V) → All P m → All P (erase k (insert k v m))
    unfolding insert erase
    All-erase-insert k v [] h = rw (eq_refl k) tt
    All-erase-insert k v ((i, w) ∷ m) h = elim (Bool-cases (i == k)) [
      | inl e ↦ rw e (rw e h.1)
      | inr e ↦ rw e (rw e (h.0, All-erase-insert k v m h.1))
    ]
