-- ===== src/Risk/Buy/Caps.antt =====
-- risk/RiskManager.ts: the binding cap of computeBuyCaps against each of the caps.
use cryptotradingbot.Common.{
  ◌≡◌, sym, subst, true, inl, inr, List, [], ◌∷◌, ◌++◌, arith, if◌then◌else◌, Bool-cases,
}
use cryptotradingbot.Common.Int.{pos, ◌+ℤ◌, ◌-ℤ◌, ◌<ℤ◌, ◌≤ℤ◌, ltb_ℤ, int_laws}
use cryptotradingbot.Common.Result.{ok}
use cryptotradingbot.Money
use cryptotradingbot.Money.{Money}
use cryptotradingbot.Risk.Doubles.{Doubles, fraction_of}
use cryptotradingbot.Risk.Model.{RiskConfig}
use cryptotradingbot.Risk.Judged.{go, call, >>=-go, call-go, go-injective}
use cryptotradingbot.Risk.Buy.{
  Cap, least_cap, binding_cap, position_cap, exposure_cap, trade_cap, compute_buy_caps,
}

-- An amount under every cap of a list.
abbrev pub AtMost : Money → List Cap → Type 0
AtMost x [] = Unit
AtMost x (c ∷ caps) = (x ≤ℤ c.cap_notional) × AtMost x caps

AtMost-left : (x : Money) (a b : List Cap) → AtMost x (a ++ b) → AtMost x a
AtMost-left x [] b h = tt
AtMost-left x (c ∷ a) b h = (h.0, AtMost-left x a b h.1)

AtMost-right : (x : Money) (a b : List Cap) → AtMost x (a ++ b) → AtMost x b
AtMost-right x [] b h = h
AtMost-right x (c ∷ a) b h = AtMost-right x a b h.1

least_cap-AtMost : (b : Cap) (caps : List Cap) → AtMost (least_cap b caps).cap_notional (b ∷ caps)
unfolding least_cap
least_cap-AtMost b [] = (omega arith, tt)
least_cap-AtMost b (c ∷ caps) = elim (Bool-cases (ltb_ℤ c.cap_notional b.cap_notional)) [
  | inl e ↦
      let (le, rest) = least_cap-AtMost c caps in
      let lt : c.cap_notional <ℤ b.cap_notional = ground (arith, e) in
      subst (λ t. AtMost (least_cap (if t then c else b) caps).cap_notional (b ∷ c ∷ caps)) (sym e)
        (omega (arith, le, lt), (le, rest))
  | inr e ↦
      let (le, rest) = least_cap-AtMost b caps in
      let ge : b.cap_notional ≤ℤ c.cap_notional = ground (arith, e) in
      subst (λ t. AtMost (least_cap (if t then c else b) caps).cap_notional (b ∷ c ∷ caps)) (sym e)
        (le, (omega (arith, le, ge), rest))
]

binding_cap-AtMost : (caps : List Cap) → AtMost (binding_cap caps).cap_notional caps
unfolding binding_cap
binding_cap-AtMost [] = tt
binding_cap-AtMost (c ∷ caps) = least_cap-AtMost c caps

-- What is under the caps that a configuration sets.
module _ {F : Type 0} (d : Doubles F) where
  pub record IsUnderCaps (cfg : RiskConfig F)
      (portfolio_value exposure price position amount : Money) : Type 0 where
    pub trade : pos 0 <ℤ cfg.max_trade_amount → amount ≤ℤ cfg.max_trade_amount
    pub exposed :
        d.is_above_zero cfg.max_portfolio_exposure_fraction ≡ true
        → (most : Money) × (fraction_of d portfolio_value cfg.max_portfolio_exposure_fraction
            ≡ ok most)
          × (exposure +ℤ amount ≤ℤ most)
    pub held :
        d.is_above_zero cfg.max_position_size_fraction ≡ true
        → (most base : Money) × (fraction_of d portfolio_value cfg.max_position_size_fraction
            ≡ ok most)
          × (Money.div most price ≡ ok base)
          × (amount ≤ℤ Money.mul (base -ℤ position) price)

  trade_cap-under :
      (cfg : RiskConfig F) (x : Money)
      → AtMost x (trade_cap cfg)
      → pos 0 <ℤ cfg.max_trade_amount
      → x ≤ℤ cfg.max_trade_amount
  unfolding trade_cap
  trade_cap-under cfg x h p = ground (arith, h, p)

  exposure_cap-under :
      (cfg : RiskConfig F) (portfolio_value exposure x : Money) (caps : List Cap)
      → exposure_cap d cfg portfolio_value exposure ≡ go caps
      → AtMost x caps
      → d.is_above_zero cfg.max_portfolio_exposure_fraction ≡ true
      → (most : Money) × (fraction_of d portfolio_value cfg.max_portfolio_exposure_fraction
          ≡ ok most)
        × (exposure +ℤ x ≤ℤ most)
  unfolding exposure_cap
  exposure_cap-under cfg portfolio_value exposure x caps h le p =
      let (most, e, h1) =
        >>=-go (call (fraction_of d portfolio_value cfg.max_portfolio_exposure_fraction)) _
          (rw p at h) in
      let le' = (subst (AtMost x) (sym (go-injective h1)) le).0 in
      (
        most,
        call-go (fraction_of d portfolio_value cfg.max_portfolio_exposure_fraction) e,
        omega (int_laws, le'),
      )

  position_cap-under :
      (cfg : RiskConfig F) (portfolio_value price position x : Money) (caps : List Cap)
      → position_cap d cfg portfolio_value price position ≡ go caps
      → AtMost x caps
      → d.is_above_zero cfg.max_position_size_fraction ≡ true
      → (most base : Money) × (fraction_of d portfolio_value cfg.max_position_size_fraction
          ≡ ok most)
        × (Money.div most price ≡ ok base)
        × (x ≤ℤ Money.mul (base -ℤ position) price)
  unfolding position_cap
  position_cap-under cfg portfolio_value price position x caps h le p =
      let (most, e, h1) =
        >>=-go (call (fraction_of d portfolio_value cfg.max_position_size_fraction)) _
          (rw p at h) in
      let (base, e1, h2) = >>=-go (call (Money.div most price)) _ h1 in
      let le' = (subst (AtMost x) (sym (go-injective h2)) le).0 in
      (
        most,
        base,
        call-go (fraction_of d portfolio_value cfg.max_position_size_fraction) e,
        call-go (Money.div most price) e1,
        le',
      )

  -- The binding cap, and what is under it, is under every cap that is set.
  pub compute_buy_caps-IsUnderCaps :
      (cfg : RiskConfig F) (portfolio_value exposure price position x : Money) (cap : Cap)
      → compute_buy_caps d cfg portfolio_value exposure price position ≡ go cap
      → x ≤ℤ cap.cap_notional
      → IsUnderCaps cfg portfolio_value exposure price position x
  unfolding compute_buy_caps
  compute_buy_caps-IsUnderCaps cfg portfolio_value exposure price position x cap h le =
      let (by_position, h1, h2) = >>=-go (position_cap d cfg portfolio_value price position) _ h in
      let (by_exposure, h3, h4) = >>=-go (exposure_cap d cfg portfolio_value exposure) _ h2 in
      let all =
        AtMost-le x (by_position ++ (by_exposure ++ trade_cap cfg)) cap (go-injective h4) le in
      let others = AtMost-right x by_position (by_exposure ++ trade_cap cfg) all in
      record {
        trade = λ p. trade_cap-under cfg x (AtMost-right x by_exposure (trade_cap cfg) others) p;
        exposed = λ p.
            exposure_cap-under cfg portfolio_value exposure x by_exposure h3
              (AtMost-left x by_exposure (trade_cap cfg) others) p;
        held = λ p.
            position_cap-under cfg portfolio_value price position x by_position h1
              (AtMost-left x by_position (by_exposure ++ trade_cap cfg) all) p;
      }
    where
      lower : (x y : Money) (caps : List Cap) → x ≤ℤ y → AtMost y caps → AtMost x caps
      lower x y [] le h = tt
      lower x y (c ∷ caps) le h = (omega (arith, le, h.0), lower x y caps le h.1)

      AtMost-le :
          (x : Money) (caps : List Cap) (cap : Cap)
          → binding_cap caps ≡ cap
          → x ≤ℤ cap.cap_notional
          → AtMost x caps
      AtMost-le x caps cap e le =
          lower x (binding_cap caps).cap_notional caps (rw e le) (binding_cap-AtMost caps)
