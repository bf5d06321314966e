-- ===== src/Portfolio/Fill/Provenance.antt =====
-- Every position that `applyFill` of portfolio/Portfolio.ts leaves is long, and its breakdown by
-- source adds up to its quantity.
use cryptotradingbot.Common.{
  ℕ, false, ◌≡◌, refl, subst, inl, inr, Option, none, some, String, Option-cases, Bool-cases, arith,
}
use cryptotradingbot.Common.Int.{pos, ◌<ℤ◌, ◌≤ℤ◌, ◌+ℤ◌, ◌-ℤ◌, int_laws, parts_of_eq}
use cryptotradingbot.Common.Dict.{
  Dict, lookup, insert, insert-Keyed, erase-Keyed, Keyed, All, All-insert, All-erase-insert,
  All-lookup,
}
use cryptotradingbot.Common.Result.{ok, >>=-eq-ok, throw_if-ok, ok-injective, bad_anchor}
use cryptotradingbot.Money
use cryptotradingbot.Money.{Money}
use cryptotradingbot.Portfolio.Model.{Portfolio, Position, SourceQuantities, Side, buy, sell}
use cryptotradingbot.Portfolio.Equity.{track_peak}
use cryptotradingbot.Portfolio.Ownership.{source_breakdown_of}
use cryptotradingbot.Portfolio.Fill.{
  is_bad_anchor, bought_position, sold_breakdown, sold_position, book_daily, apply_fill,
}
use cryptotradingbot.Portfolio.Fill.Conserve.{left_positions}
use cryptotradingbot.Portfolio.Fill.Inversion.{
  apply_buy-ok, apply_sell-ok, apply_fill_buy-ok, apply_fill_sell-ok,
}

-- A breakdown of a quantity by source.
pub record Splits (sq : SourceQuantities) (quantity : Money) : Type 0 where
  pub bot_nonneg : pos 0 ≤ℤ sq.bot_quantity
  pub external_nonneg : pos 0 ≤ℤ sq.external_quantity
  pub adds_up : sq.bot_quantity +ℤ sq.external_quantity ≡ quantity

-- A position held under its own symbol, long, with a breakdown that adds up.
pub record IsSound (symbol : String) (p : Position) : Type 0 where
  pub named : p.symbol ≡ symbol
  pub long : pos 0 <ℤ p.quantity
  pub split : Splits (source_breakdown_of p) p.quantity

-- The positions of a portfolio, one to a symbol and each sound.
pub record IsManaged (positions : Dict Position) : Type 0 where
  pub keyed : Keyed positions
  pub sound : All IsSound positions

min_le_left : (a b : Money) → Money.min a b ≤ℤ a
min_le_left a b = ground arith

min_le_right : (a b : Money) → Money.min a b ≤ℤ b
min_le_right a b = ground arith

le_min : (x a b : Money) → x ≤ℤ a → x ≤ℤ b → x ≤ℤ Money.min a b
le_min x a b h k = ground arith

-- Selling out of a breakdown takes the quantity off it, BOT inventory first, and leaves a breakdown.
pub sold_breakdown-Splits :
    (sq : SourceQuantities) (held quantity : Money)
    → Splits sq held
    → pos 0 ≤ℤ quantity
    → quantity ≤ℤ held
    → Splits (sold_breakdown sq quantity) (held -ℤ quantity)
unfolding sold_breakdown
sold_breakdown-Splits sq held quantity s q le =
    let b = sq.bot_quantity in
    let x = sq.external_quantity in
    let c = Money.min b quantity in
    let d = Money.min x (quantity -ℤ c) in
    let whole = parts_of_eq s.adds_up in
    let covers = le_min (quantity -ℤ x) b quantity (omega (int_laws, whole)) (omega int_laws) in
    let rest =
      le_min (quantity -ℤ c) x (quantity -ℤ c) (omega (int_laws, covers)) (omega int_laws) in
    record {
      bot_nonneg = omega (int_laws, min_le_left b quantity);
      external_nonneg = omega (int_laws, min_le_left x (quantity -ℤ c));
      adds_up = omega (int_laws, whole, rest, min_le_right x (quantity -ℤ c));
    }

-- A position opened by a BUY is all BOT inventory.
opened-IsSound :
    (symbol : String) (quantity cost fee : Money) (anchor : Option Money) (p : Position)
    → pos 0 <ℤ quantity
    → bought_position symbol quantity cost fee anchor none ≡ ok p
    → IsSound symbol p
unfolding bought_position source_breakdown_of
opened-IsSound symbol quantity cost fee anchor p q h =
    let (_, h1) = throw_if-ok (is_bad_anchor anchor) bad_anchor _ h in
    let (average, h2, h3) = >>=-eq-ok (Money.div cost quantity) _ h1 in
    subst (IsSound symbol) (ok-injective h3) (record {
      named = refl;
      long = q;
      split = record {
        bot_nonneg = omega arith;
        external_nonneg = omega arith;
        adds_up = omega int_laws;
      };
    })

-- A BUY that scales a position adds BOT inventory to it.
scaled-IsSound :
    (symbol : String) (quantity cost fee : Money) (anchor : Option Money) (x p : Position)
    → pos 0 <ℤ quantity
    → IsSound symbol x
    → bought_position symbol quantity cost fee anchor (some x) ≡ ok p
    → IsSound symbol p
unfolding bought_position source_breakdown_of
scaled-IsSound symbol quantity cost fee anchor x p q s h =
    let (average, h2, h3) =
      >>=-eq-ok (Money.div (Money.add x.cost_basis cost) (Money.add x.quantity quantity)) _ h in
    subst (IsSound symbol) (ok-injective h3) (record {
      named = s.named;
      long = omega (int_laws, s.long);
      split = record {
        bot_nonneg = omega (int_laws, s.split.bot_nonneg);
        external_nonneg = s.split.external_nonneg;
        adds_up = omega (int_laws, parts_of_eq s.split.adds_up);
      };
    })

bought_position-IsSound :
    (symbol : String) (quantity cost fee : Money) (anchor : Option Money)
    (positions : Dict Position) (p : Position)
    → pos 0 <ℤ quantity
    → All IsSound positions
    → bought_position symbol quantity cost fee anchor (lookup symbol positions) ≡ ok p
    → IsSound symbol p
bought_position-IsSound symbol quantity cost fee anchor positions p q all h =
    elim (Option-cases (lookup symbol positions)) [
      | inl e ↦ opened-IsSound symbol quantity cost fee anchor p q (rw e at h)
      | inr (x, e) ↦
          scaled-IsSound symbol quantity cost fee anchor x p q
            (All-lookup IsSound symbol x positions all e) (rw e at h)
    ]

above_zero :
    (held quantity : Money)
    → quantity ≤ℤ held
    → Money.is_zero (held -ℤ quantity) ≡ false
    → pos 0 <ℤ held -ℤ quantity
above_zero held quantity le nz = grind (int_laws, nz)

sold_position-Splits :
    (x : Position) (quantity price fee : Money)
    → Splits (source_breakdown_of x) x.quantity
    → pos 0 <ℤ quantity
    → quantity ≤ℤ x.quantity
    → Splits (source_breakdown_of (sold_position x quantity price fee)) (x.quantity -ℤ quantity)
unfolding sold_position source_breakdown_of
sold_position-Splits x quantity price fee s q le =
    sold_breakdown-Splits (source_breakdown_of x) x.quantity quantity s (omega arith) le

-- What is left of a position after a SELL, if anything is left.
sold_position-IsSound :
    (symbol : String) (x : Position) (quantity price fee : Money)
    → IsSound symbol x
    → pos 0 <ℤ quantity
    → quantity ≤ℤ x.quantity
    → Money.is_zero (sold_position x quantity price fee).quantity ≡ false
    → IsSound symbol (sold_position x quantity price fee)
unfolding sold_position
sold_position-IsSound symbol x quantity price fee s q le nz = record {
  named = s.named;
  long = above_zero x.quantity quantity le nz;
  split = sold_position-Splits x quantity price fee s.split q le;
}

sold-IsManaged :
    (positions : Dict Position) (symbol : String) (x : Position) (quantity price fee : Money)
    → IsManaged positions
    → lookup symbol positions ≡ some x
    → pos 0 <ℤ quantity
    → quantity ≤ℤ x.quantity
    → IsManaged (left_positions positions symbol (sold_position x quantity price fee))
sold-IsManaged positions symbol x quantity price fee g e q le =
    let p = sold_position x quantity price fee in
    let all = insert-Keyed symbol p positions g.keyed in
    elim (Bool-cases (Money.is_zero p.quantity)) [
      | inl z ↦ rw z (record {
        keyed = erase-Keyed symbol (insert symbol p positions) all;
        sound = All-erase-insert IsSound symbol p positions g.sound;
      })
      | inr nz ↦ rw nz (record {
        keyed = all;
        sound = All-insert IsSound symbol p positions g.sound (
            sold_position-IsSound symbol x quantity price fee
              (All-lookup IsSound symbol x positions g.sound e) q le nz);
      })
    ]

track_peak-positions : (m : Portfolio) → (track_peak m).positions ≡ m.positions
unfolding track_peak
track_peak-positions m = ground arith

book_daily-positions :
    (m : Portfolio) (now_ms : Option ℕ) (r : Money)
    → (book_daily m now_ms r).positions ≡ m.positions
unfolding book_daily
book_daily-positions m none r = refl
book_daily-positions m (some t) r = refl

-- `applyFill` keeps the positions sound: a BUY adds BOT inventory, a SELL never goes short and takes
-- BOT inventory before what was authorized from outside.
pub apply_fill-IsManaged :
    (m : Portfolio) (symbol : String) (side : Side) (quantity price fee : Money) (now_ms : Option ℕ)
    (anchor : Option Money) (n : Portfolio)
    → IsManaged m.positions
    → apply_fill m symbol side quantity price fee now_ms anchor ≡ ok n
    → IsManaged n.positions
apply_fill-IsManaged m symbol buy quantity price fee now_ms anchor n g h =
    let (next, q, h1, h2) = apply_fill_buy-ok m symbol quantity price fee now_ms anchor n h in
    let (p, entry, h3, _, h5) = apply_buy-ok m symbol quantity price fee anchor next h1 in
    let cost = Money.add (Money.mul quantity price) fee in
    rw (h2, track_peak-positions next, h5)
      (record {
        keyed = insert-Keyed symbol p m.positions g.keyed;
        sound =
            All-insert IsSound symbol p m.positions g.sound
              (bought_position-IsSound symbol quantity cost fee anchor m.positions p q g.sound h3);
      })
apply_fill-IsManaged m symbol sell quantity price fee now_ms anchor n g h =
    let (next, q, h1, h2) = apply_fill_sell-ok m symbol quantity price fee now_ms anchor n h in
    let (x, entry, h3, _, enough, _, h5) =
      apply_sell-ok m symbol quantity price fee now_ms next h1 in
    rw (h2, track_peak-positions next, h5, book_daily-positions _ now_ms _)
      (sold-IsManaged m.positions symbol x quantity price fee g h3 q (ground (arith, enough)))
