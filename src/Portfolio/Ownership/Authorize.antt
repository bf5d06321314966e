-- ===== src/Portfolio/Ownership/Authorize.antt =====
-- portfolio/Portfolio.ts: `authorizeExternal` moves what is held externally into the managed position.
use cryptotradingbot.Common.{
  ◌≡◌, refl, sym, ◌∙◌, ap, subst, Bool, true, false, inl, inr, ◌⊎◌, none, some, String, str_eq,
  Bool-cases, Option-cases, arith, if◌then◌else◌,
}
use cryptotradingbot.Common.Int.{pos, ◌+ℤ◌, ◌<ℤ◌, int_laws, parts_of_eq}
use cryptotradingbot.Common.Dict.{Keyed, get_or, insert-Keyed, All-insert, All-lookup}
use cryptotradingbot.Common.Result.{ok, throw_if-ok, >>=-eq-ok, ok-injective, negative_external}
use cryptotradingbot.Money
use cryptotradingbot.Money.{Money}
use cryptotradingbot.Portfolio.Model.{Portfolio, Position}
use cryptotradingbot.Portfolio.Equity.{
  external, position, is_authorized_external, expected_asset_balances,
}
use cryptotradingbot.Portfolio.Ids.{base_of}
use cryptotradingbot.Portfolio.Sums.{share, total-insert}
use cryptotradingbot.Portfolio.Ownership.{
  authorized_position, authorize_external, source_breakdown_of, merge_external_breakdown,
}
use cryptotradingbot.Portfolio.Ownership.Expected.{
  counted, held_of, expected_asset_balances_lem, external_of-erase,
}
use cryptotradingbot.Portfolio.Ownership.Moved.{
  IsMoved, authorized, authorized-IsMoved, unchanged-IsMoved,
}
use cryptotradingbot.Portfolio.Fill.Provenance.{IsSound, IsManaged, Splits}

authorize_external-ok :
    (m : Portfolio) (symbol : String) (n : Portfolio)
    → authorize_external m symbol ≡ ok n
    → ((external m symbol ≡ pos 0) × (is_authorized_external m symbol ≡ true) × (n ≡ m))
      ⊎ ((p : Position) × (pos 0 <ℤ external m symbol)
          × (authorized_position symbol (external m symbol) (position m symbol) ≡ ok p)
          × (n ≡ authorized m symbol p))
unfolding authorize_external
authorize_external-ok m symbol n h =
    let (neg, h1) = throw_if-ok (Money.is_negative (external m symbol)) negative_external _ h in
    elim (Bool-cases (Money.is_zero (external m symbol))) [
      | inl z ↦ inl (ground (arith, z), ground (arith, z, h1), ground (arith, z, h1))
      | inr nz ↦
          let (p, h2, h3) =
            >>=-eq-ok (authorized_position symbol (external m symbol) (position m symbol)) _
              (rw nz at h1) in
          inr (p, ground (arith, neg, nz), h2, sym (ok-injective h3))
    ]

fresh_position-ok :
    (symbol : String) (quantity : Money) (p : Position)
    → pos 0 <ℤ quantity
    → authorized_position symbol quantity none ≡ ok p
    → IsSound symbol p × ((b : String) → held_of b p ≡ counted b symbol quantity)
unfolding authorized_position source_breakdown_of
fresh_position-ok symbol quantity p q h =
    subst (λ x. IsSound symbol x × ((b : String) → held_of b x ≡ counted b symbol quantity))
      (ok-injective h)
      (
        record {
          named = refl;
          long = q;
          split = record {
            bot_nonneg = omega arith;
            external_nonneg = omega (arith, q);
            adds_up = omega int_laws;
          };
        },
        λ b. refl,
      )

joined-Splits :
    (x : Position) (quantity : Money)
    → pos 0 <ℤ quantity
    → Splits (source_breakdown_of x) x.quantity
    → Splits (merge_external_breakdown x quantity) (x.quantity +ℤ quantity)
unfolding merge_external_breakdown
joined-Splits x quantity q s = record {
  bot_nonneg = s.bot_nonneg;
  external_nonneg = omega (int_laws, s.external_nonneg, q);
  adds_up = omega (int_laws, parts_of_eq s.adds_up);
}

joined_held :
    (b : String) (t : Bool) (x quantity : Money)
    → (if t then x +ℤ quantity else pos 0)
      ≡ (if t then x else pos 0) +ℤ (if t then quantity else pos 0)
joined_held b true x quantity = refl
joined_held b false x quantity = omega int_laws

joined_position-ok :
    (symbol : String) (quantity : Money) (managed p : Position)
    → pos 0 <ℤ quantity
    → IsSound symbol managed
    → authorized_position symbol quantity (some managed) ≡ ok p
    → IsSound symbol p
      × ((b : String) → held_of b p ≡ held_of b managed +ℤ counted b symbol quantity)
unfolding authorized_position source_breakdown_of
joined_position-ok symbol quantity managed p q g h =
    let (average, _, h1) =
      >>=-eq-ok
        (if Money.is_zero (Money.add managed.quantity quantity)
          then ok Money.zero
          else Money.div managed.cost_basis (Money.add managed.quantity quantity))
        _ h in
    subst
      (λ x.
        IsSound symbol x
        × ((b : String) → held_of b x ≡ held_of b managed +ℤ counted b symbol quantity))
      (ok-injective h1)
      (
        record {
          named = g.named;
          long = omega (int_laws, g.long, q);
          split = joined-Splits managed quantity q g.split;
        },
        λ b.
            joined_held b (str_eq (base_of managed.symbol) b) managed.quantity quantity
            ∙ ap (λ s. held_of b managed +ℤ counted b s quantity) g.named,
      )

-- The position afterwards has the symbol, and the quantity before and what was external.
authorized_position-ok :
    (m : Portfolio) (symbol : String) (quantity : Money) (p : Position)
    → IsManaged m.positions
    → pos 0 <ℤ quantity
    → authorized_position symbol quantity (position m symbol) ≡ ok p
    → IsSound symbol p
      × ((b : String)
          → held_of b p ≡ share (held_of b) symbol m.positions +ℤ counted b symbol quantity)
authorized_position-ok m symbol quantity p g q h = elim (Option-cases (position m symbol)) [
  | inl e ↦
      let (s, moves) = fresh_position-ok symbol quantity p q (rw e at h) in
      (s, λ b. rw (e, share) (moves b ∙ omega int_laws))
  | inr (managed, e) ↦
      let sound = All-lookup IsSound symbol managed m.positions g.sound e in
      let (s, moves) = joined_position-ok symbol quantity managed p q sound (rw e at h) in
      (s, λ b. rw (e, share) (moves b))
]

-- Where `authorizeExternal` returns, on sound positions and a snapshot with one entry to a symbol, all that
-- the snapshot had of the symbol has left it for the managed position, which has it as external inventory on top of what it had, with its cost and the bot's part as
-- they were; the symbol is authorized, and the other symbols and the cash are as before. What is expected of
-- every asset at the exchange is conserved, and the managed positions stay sound.
pub authorize_external_conserves :
    (m : Portfolio) (symbol : String) (n : Portfolio)
    → IsManaged m.positions
    → Keyed m.external_snapshot
    → authorize_external m symbol ≡ ok n
    → IsMoved symbol m n
      × IsManaged n.positions
      × ((b : String)
          → get_or b (expected_asset_balances n) (pos 0)
            ≡ get_or b (expected_asset_balances m) (pos 0))
authorize_external_conserves m symbol n g k h = elim (authorize_external-ok m symbol n h) [
  | inl (z, a, e) ↦ rw e (unchanged-IsMoved m symbol z a, g, λ b. refl)
  | inr (p, q, h1, e) ↦
      let (s, moves) = authorized_position-ok m symbol (external m symbol) p g q h1 in
      rw e (
        authorized-IsMoved m symbol p k h1,
        record {
          keyed = insert-Keyed symbol p m.positions g.keyed;
          sound = All-insert IsSound symbol p m.positions g.sound s;
        },
        λ b. omega (
          int_laws,
          parts_of_eq (expected_asset_balances_lem (authorized m symbol p) b),
          parts_of_eq (expected_asset_balances_lem m b),
          parts_of_eq (total-insert (held_of b) symbol p m.positions),
          parts_of_eq (external_of-erase b symbol m.external_snapshot),
          parts_of_eq (moves b),
        ),
      )
]
