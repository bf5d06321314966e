-- ===== src/Portfolio/Ownership/Moved.antt =====
-- portfolio/Portfolio.ts: what `authorizeExternal` does to one symbol, and what it leaves alone.
use cryptotradingbot.Common.{
  ◌≡◌, ◌≢◌, refl, ap, subst, true, false, Option, none, some, [], ◌∷◌, String, List, str_eq, eq_iff,
  eq_refl, ◌∙◌, arith, if◌then◌else◌,
}
use cryptotradingbot.Common.Int.{pos, ◌+ℤ◌, int_laws, parts_of_eq}
use cryptotradingbot.Common.Dict.{
  Keyed, insert, erase, lookup-insert, lookup-insert_self, lookup-erase,
}
use cryptotradingbot.Common.Result.{ok, >>=-eq-ok, ok-injective}
use cryptotradingbot.Money
use cryptotradingbot.Money.{Money}
use cryptotradingbot.Portfolio.Model.{Portfolio, Position}
use cryptotradingbot.Portfolio.Equity.{external, position, include, member, is_authorized_external}
use cryptotradingbot.Portfolio.Sums.{cost_of}
use cryptotradingbot.Portfolio.Ownership.{
  authorized_position, source_breakdown_of, merge_external_breakdown,
}

abbrev quantity_of : Position → Money
quantity_of p = p.quantity

abbrev bot_part : Position → Money
bot_part p = (source_breakdown_of p).bot_quantity

abbrev external_part : Position → Money
external_part p = (source_breakdown_of p).external_quantity

-- A measure of a position, which is nothing of none.
abbrev amount_in : (Position → Money) → Option Position → Money
amount_in f none = pos 0
amount_in f (some p) = f p

-- All that is external of a symbol has become managed: it is gone from the snapshot, the position has it
-- as external inventory on top of what it had, at no cost, and the symbol is authorized. The bot's part,
-- the other symbols and the cash are as they were.
pub record IsMoved (symbol : String) (m n : Portfolio) : Type 0 where
  pub left_snapshot : external n symbol ≡ pos 0
  pub entered :
      amount_in quantity_of (position n symbol)
      ≡ amount_in quantity_of (position m symbol) +ℤ external m symbol
  pub as_external :
      amount_in external_part (position n symbol)
      ≡ amount_in external_part (position m symbol) +ℤ external m symbol
  pub bot_kept : amount_in bot_part (position n symbol) ≡ amount_in bot_part (position m symbol)
  pub at_no_cost : amount_in cost_of (position n symbol) ≡ amount_in cost_of (position m symbol)
  pub is_authorized : is_authorized_external n symbol ≡ true
  pub positions_kept : (other : String) → symbol ≢ other → position n other ≡ position m other
  pub snapshot_kept : (other : String) → symbol ≢ other → external n other ≡ external m other
  pub cash_kept : n.cash ≡ m.cash

-- What an authorization leaves, with the position that it makes.
abbrev pub authorized : Portfolio → String → Position → Portfolio
authorized m symbol p = record m {
  authorized_external = include symbol m.authorized_external;
  positions = insert symbol p m.positions;
  external_snapshot = erase symbol m.external_snapshot;
}

authorized_position-parts :
    (symbol : String) (quantity : Money) (before : Option Position) (p : Position)
    → authorized_position symbol quantity before ≡ ok p
    → (p.quantity ≡ amount_in quantity_of before +ℤ quantity)
      × (external_part p ≡ amount_in external_part before +ℤ quantity)
      × (bot_part p ≡ amount_in bot_part before)
      × (cost_of p ≡ amount_in cost_of before)
unfolding authorized_position source_breakdown_of merge_external_breakdown
authorized_position-parts symbol quantity none p h =
    subst
      (λ x.
        (x.quantity ≡ pos 0 +ℤ quantity)
        × (external_part x ≡ pos 0 +ℤ quantity)
        × (bot_part x ≡ pos 0)
        × (cost_of x ≡ pos 0))
      (ok-injective h) (omega int_laws, omega int_laws, refl, refl)
authorized_position-parts symbol quantity (some managed) p h =
    let (average, _, h1) =
      >>=-eq-ok
        (if Money.is_zero (Money.add managed.quantity quantity)
          then ok Money.zero
          else Money.div managed.cost_basis (Money.add managed.quantity quantity))
        _ h in
    subst
      (λ x.
        (x.quantity ≡ managed.quantity +ℤ quantity)
        × (external_part x ≡ external_part managed +ℤ quantity)
        × (bot_part x ≡ bot_part managed)
        × (cost_of x ≡ cost_of managed))
      (ok-injective h1) (refl, refl, refl, refl)

member-include_self : (s : String) (ss : List String) → member s (include s ss) ≡ true
unfolding member include
member-include_self s [] = rw (eq_refl s) refl
member-include_self s (t ∷ ts) = ground (arith, member-include_self s ts)

differs : (a b : String) → a ≢ b → str_eq a b ≡ false
differs a b h = ground (arith, eq_iff a b, h)

abbrev amount_at : Option Money → Money
amount_at found = elim found [ none ↦ Money.zero | some v ↦ v ]

add_nothing : (a b : Money) → b ≡ pos 0 → a ≡ a +ℤ b
add_nothing a b h = omega (int_laws, parts_of_eq h)

-- An authorization moves what is external.
pub authorized-IsMoved :
    (m : Portfolio) (symbol : String) (p : Position)
    → Keyed m.external_snapshot
    → authorized_position symbol (external m symbol) (position m symbol) ≡ ok p
    → IsMoved symbol m (authorized m symbol p)
authorized-IsMoved m symbol p k h =
    let (q, x, b, c) =
      authorized_position-parts symbol (external m symbol) (position m symbol) p h in
    let now = lookup-insert_self symbol p m.positions in
    record {
      left_snapshot =
          ap amount_at (lookup-erase symbol symbol m.external_snapshot k)
          ∙ rw (eq_refl symbol) refl;
      entered = ap (amount_in quantity_of) now ∙ q;
      as_external = ap (amount_in external_part) now ∙ x;
      bot_kept = ap (amount_in bot_part) now ∙ b;
      at_no_cost = ap (amount_in cost_of) now ∙ c;
      is_authorized = member-include_self symbol m.authorized_external;
      positions_kept =
          λ other d. rw (lookup-insert symbol other p m.positions, differs symbol other d) refl;
      snapshot_kept = λ other d.
          ap amount_at (lookup-erase symbol other m.external_snapshot k)
          ∙ rw (differs symbol other d) refl;
      cash_kept = refl;
    }

-- Where nothing is external and the symbol is authorized, nothing is left to move.
pub unchanged-IsMoved :
    (m : Portfolio) (symbol : String)
    → external m symbol ≡ pos 0
    → is_authorized_external m symbol ≡ true
    → IsMoved symbol m m
unchanged-IsMoved m symbol z a = record {
  left_snapshot = z;
  entered = add_nothing (amount_in quantity_of (position m symbol)) (external m symbol) z;
  as_external = add_nothing (amount_in external_part (position m symbol)) (external m symbol) z;
  bot_kept = refl;
  at_no_cost = refl;
  is_authorized = a;
  positions_kept = λ other d. refl;
  snapshot_kept = λ other d. refl;
  cash_kept = refl;
}
