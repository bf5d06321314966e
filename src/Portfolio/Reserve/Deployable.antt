-- ===== src/Portfolio/Reserve/Deployable.antt =====
-- portfolio/Portfolio.ts: what of a currency can still be deployed (`deployableQuote`,
-- `deployableQuoteBounded`), as orders reserve it and give it back.
use cryptotradingbot.Common.{
  ◌≡◌, refl, ◌∙◌, ap, true, false, ◌⊎◌, inl, inr, none, some, String, str_eq, eq_refl, arith,
  if◌then◌else◌, Bool-cases,
}
use cryptotradingbot.Common.Int.{pos, ◌+ℤ◌, ◌-ℤ◌, ◌<ℤ◌, ◌≤ℤ◌, ltb_ℤ, int_laws, parts_of_eq}
use cryptotradingbot.Common.Result.{ok}
use cryptotradingbot.Money
use cryptotradingbot.Money.{Money}
use cryptotradingbot.Portfolio.Model.{Portfolio, Balance}
use cryptotradingbot.Portfolio.Equity.{cash, reserved}
use cryptotradingbot.Portfolio.Reserve.{
  deployable_quote, deployable_quote_bounded, bounded_net, is_usable, reserve_order,
}
use cryptotradingbot.Portfolio.Reserve.Steps.{get_or-moved, reserve_order-ok}

-- The deployable quote as a maximum.
pub deployable-cases :
    (m : Portfolio) (c : String)
    → (pos 0 ≤ℤ deployable_quote m c)
      × (cash m c -ℤ reserved m c ≤ℤ deployable_quote m c)
      × (pos 0 <ℤ deployable_quote m c → deployable_quote m c ≡ cash m c -ℤ reserved m c)
      × (pos 0 ≤ℤ cash m c -ℤ reserved m c → deployable_quote m c ≡ cash m c -ℤ reserved m c)
unfolding deployable_quote
deployable-cases m c = (ground arith, ground arith, λ h. ground (arith, h), λ h. ground (arith, h))

deployable-same :
    (m n : Portfolio) (c : String) (delta : Money)
    → cash n c ≡ cash m c
    → reserved n c ≡ reserved m c +ℤ delta
    → pos 0 ≤ℤ cash n c -ℤ reserved n c
    → pos 0 ≤ℤ cash m c -ℤ reserved m c
    → deployable_quote n c ≡ deployable_quote m c -ℤ delta
deployable-same m n c delta ec er pn pm =
    let (_, _, _, full) = deployable-cases n c in
    let (_, _, _, full') = deployable-cases m c in
    omega (int_laws, parts_of_eq (full pn), parts_of_eq (full' pm), parts_of_eq ec, parts_of_eq er)

deployable-eq :
    (m n : Portfolio) (c : String)
    → cash n c ≡ cash m c
    → reserved n c ≡ reserved m c
    → deployable_quote n c ≡ deployable_quote m c
unfolding deployable_quote
deployable-eq m n c ec er = rw (ec, er) refl

reserved-after :
    (m : Portfolio) (id currency : String) (amount : Money) (n : Portfolio) (c : String)
    → reserve_order m id currency amount ≡ ok n
    → (cash n c ≡ cash m c)
      × (reserved n c ≡ reserved m c +ℤ (if str_eq currency c then amount else pos 0))
reserved-after m id currency amount n c h =
    let (_, _, _, e) = reserve_order-ok m id currency amount n h in
    (
      ap (λ (x : Portfolio). cash x c) e,
      ap (λ (x : Portfolio). reserved x c) e ∙ get_or-moved m.reserved currency c amount,
    )

-- `reserveOrder` takes exactly the amount off what can be deployed in its currency, which it never
-- takes below zero, and leaves every other currency as it is.
pub reserve_order-deployable :
    (m : Portfolio) (id currency : String) (amount : Money) (n : Portfolio)
    → reserve_order m id currency amount ≡ ok n
    → (deployable_quote n currency ≡ deployable_quote m currency -ℤ amount)
      × (pos 0 ≤ℤ deployable_quote n currency)
      × (reserved n currency ≤ℤ cash n currency)
      × ((c : String) → str_eq currency c ≡ false → deployable_quote n c ≡ deployable_quote m c)
reserve_order-deployable m id currency amount n h =
    let (p, _, le, e) = reserve_order-ok m id currency amount n h in
    let (_, _, exact, _) = deployable-cases m currency in
    let room = exact (omega (arith, p, le)) in
    let (funds, after) = reserved-after m id currency amount n currency h in
    let pool : reserved n currency ≡ reserved m currency +ℤ amount =
      rw (eq_refl currency) at after in
    let fits : reserved n currency ≤ℤ cash n currency =
      omega (int_laws, parts_of_eq room, le, parts_of_eq pool, parts_of_eq funds) in
    (
      deployable-same m n currency amount funds pool (omega (int_laws, fits))
          (omega (int_laws, parts_of_eq room, p, le)),
      (deployable-cases n currency).0,
      fits,
      λ c other.
          let (same, after) = reserved-after m id currency amount n c h in
          let none_added : reserved n c ≡ reserved m c +ℤ pos 0 = rw other at after in
          deployable-eq m n c same (omega (int_laws, parts_of_eq none_added)),
    )

net_bounds :
    (managed_cash available held_back : Money)
    → pos 0 ≤ℤ available
    → pos 0 ≤ℤ held_back
    → let net = bounded_net managed_cash available held_back in
      (pos 0 ≤ℤ net) × (net ≤ℤ available) × ((net ≡ pos 0) ⊎ (net ≤ℤ managed_cash -ℤ held_back))
unfolding bounded_net
net_bounds x a r ha hr = elim (Bool-cases (ltb_ℤ x a)) [
  | inl e ↦ rw (e, bounded_net) (of_pool x (ground (arith, e)) (omega arith))
  | inr e ↦ rw (e, bounded_net) (of_pool a (omega arith) (ground (arith, e)))
]
  where
    of_pool :
        (p : Money)
        → p ≤ℤ a
        → p ≤ℤ x
        → let net = (if Money.is_negative_or_zero p then Money.zero else Money.sub p r) in
          let out = (if Money.is_negative_or_zero net then Money.zero else net) in
          (pos 0 ≤ℤ out) × (out ≤ℤ a) × ((out ≡ pos 0) ⊎ (out ≤ℤ x -ℤ r))
    of_pool p le le' = elim (Bool-cases (Money.is_negative_or_zero p)) [
      | inl e ↦ rw e (omega arith, omega arith, inl refl)
      | inr e ↦ rw e (elim (Bool-cases (Money.is_negative_or_zero (p -ℤ r))) [
        | inl z ↦ rw z (omega arith, omega arith, inl refl)
        | inr nz ↦
            let q : pos 0 <ℤ p -ℤ r = ground (arith, nz) in
            rw nz (omega (arith, q), omega (int_laws, le, hr), inr (omega (int_laws, le')))
      ])
    ]

usable-available : (b : Balance) → is_usable b ≡ true → pos 0 ≤ℤ b.available
unfolding is_usable
usable-available b h = ground (arith, h)

-- `deployableQuoteBounded` is never negative, never more than `deployableQuote`, at most what the
-- exchange has available where its balance is consistent (no part of it negative, the available part at
-- most the total and exactly the total less what is held), and zero where it is not or is not reported;
-- the reserved pool must not be negative.
pub deployable_quote_bounded_lem :
    (m : Portfolio) (c : String) (b : Balance)
    → pos 0 ≤ℤ reserved m c
    → let d = deployable_quote_bounded m c (some b) in
      (pos 0 ≤ℤ d)
      × (d ≤ℤ deployable_quote m c)
      × (is_usable b ≡ true → d ≤ℤ b.available)
      × (is_usable b ≡ false → d ≡ pos 0)
      × (deployable_quote_bounded m c none ≡ pos 0)
unfolding deployable_quote_bounded
deployable_quote_bounded_lem m c b hr =
    let (dq, above, _, _) = deployable-cases m c in
    elim (Bool-cases (is_usable b)) [
      | inr e ↦ rw e (omega arith, dq, λ u. cc, λ _. refl, refl)
      | inl e ↦
          let (low, high, own) =
            net_bounds (cash m c) b.available (reserved m c) (usable-available b e) hr in
          rw e (
            low,
            elim own [
              | inl z ↦ omega (arith, parts_of_eq z, dq)
              | inr le ↦ omega (arith, le, above)
            ],
            λ _. high,
            λ u. cc,
            refl,
          )
    ]
