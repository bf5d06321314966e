-- ===== src/Execution/Live/Validate/Submittable.antt =====
-- execution/LiveExecutionEngine.ts: what an order that passes `validateOrder` satisfies.
use cryptotradingbot.Common.{
  ◌≡◌, ◌⊎◌, inl, inr, refl, Bool, true, false, not, ◌&&◌, Option, none, some, List, String, arith,
  Bool-cases,
}
use cryptotradingbot.Common.Int.{pos, ltb_ℤ, ◌<ℤ◌, ◌≤ℤ◌, ◌+ℤ◌, rem, eqb_ℤ-eq}
use cryptotradingbot.Common.Result.{Result, ok, err}
use cryptotradingbot.Money
use cryptotradingbot.Money.{Money}
use cryptotradingbot.Portfolio.Model.{Side, buy, sell, Balance}
use cryptotradingbot.Portfolio.Ids.{base_of, quote_of}
use cryptotradingbot.Reconcile.Model.{OrderType, market_order, limit_order}
use cryptotradingbot.Risk.Doubles.{Doubles}
use cryptotradingbot.Risk.Model.{MarketInfo}
use cryptotradingbot.Execution.Live.Model.{
  NewOrder, OrderTif, ioc, gtc, fok, LiveError, done, >>=-eq-done, throw_if, throw_if-done, lift,
  not_limit, not_ioc, quantity_not_positive, above_max_base, off_quantity_grid, below_min_base,
  off_price_grid, below_min_quote, above_max_quote, LiveConfig, Replies,
}
use cryptotradingbot.Execution.Live.Validate.{
  is_limit, is_ioc, is_given_session, is_off_grid, is_below, positive_price, find_balance, covers,
  taker_of, check_funds, assert_sufficient_balance, estimate_quote_fee, check_exposure,
  validate_order,
}

abbrev pub OnGrid : Money → Money → Type 0
OnGrid amount tick = (tick ≡ pos 0) ⊎ (rem amount tick ≡ pos 0)

-- Nothing below a floor that is given.
abbrev pub AtLeast : Option Money → Money → Type 0
AtLeast none amount = Unit
AtLeast (some floor) amount = floor ≤ℤ amount

-- The currency that an order takes, and how much of it.
abbrev pub currency_taken : Side → String → Option String
currency_taken buy symbol = quote_of symbol
currency_taken sell symbol = some (base_of symbol)

abbrev pub amount_taken : Side → Money → Money → Money
amount_taken buy quantity price = Money.mul quantity price
amount_taken sell quantity price = quantity

module _ {F : Type 0} (d : Doubles F) where
  -- What a BUY may cost, its fee included.
  abbrev pub IsExposureCapped : LiveConfig F → MarketInfo F → Side → Money → Money → Type 0
  IsExposureCapped cfg market sell quantity price = Unit
  IsExposureCapped cfg market buy quantity price =
      (fee : Money) × (estimate_quote_fee d (Money.mul quantity price) (taker_of market.fee_info)
        ≡ ok fee)
      × (Money.mul quantity price +ℤ fee ≤ℤ cfg.max_live_quote_notional)

  pub record IsSubmittable (cfg : LiveConfig F) (r : Replies F) (order : NewOrder) : Type 0 where
    pub limit_only : order.order_type ≡ limit_order
    pub ioc_in_session : is_given_session cfg.autonomous_live_session ≡ true → order.tif ≡ some ioc
    pub positive : pos 0 <ℤ order.quantity
    pub capped : order.quantity ≤ℤ cfg.max_live_base_quantity
    pub market : MarketInfo F
    pub market_read : r.market ≡ done market
    pub quantity_on_grid : OnGrid order.quantity market.quantity_tick
    pub base_floor : AtLeast market.min_order_base order.quantity
    pub price : Money
    pub priced : order.price ≡ some price
    pub price_positive : pos 0 <ℤ price
    pub price_on_grid : OnGrid price market.price_tick
    pub quote_floor : AtLeast market.min_order_quote (Money.mul price order.quantity)
    pub exposure : IsExposureCapped cfg market order.side order.quantity price
    pub balance : Balance
    pub balances : List Balance
    pub balances_read : r.balances ≡ done balances
    pub found : find_balance (currency_taken order.side order.symbol) balances ≡ some balance
    pub funded : amount_taken order.side order.quantity price ≤ℤ balance.available

is_limit-limit : (t : OrderType) → not (is_limit t) ≡ false → t ≡ limit_order
is_limit-limit market_order h = cc
is_limit-limit limit_order h = refl

is_ioc-ioc : (t : Option OrderTif) → is_ioc t ≡ true → t ≡ some ioc
is_ioc-ioc none h = cc
is_ioc-ioc (some gtc) h = cc
is_ioc-ioc (some ioc) h = refl
is_ioc-ioc (some fok) h = cc

not_off_grid : (amount tick : Money) → is_off_grid amount tick ≡ done false → OnGrid amount tick
unfolding is_off_grid Money.is_multiple_of
not_off_grid amount tick h = elim (Bool-cases (Money.is_zero tick)) [
  | inl z ↦ inl (eqb_ℤ-eq tick (pos 0) z)
  | inr z ↦ inr (eqb_ℤ-eq (rem amount tick) (pos 0) (ground (arith, h, z)))
]

not_below :
    (amount : Money) (floor : Option Money) → is_below amount floor ≡ false → AtLeast floor amount
not_below amount none h = tt
not_below amount (some f) h = ground (arith, h)

pub positive_price-some :
    (price : Option Money) {p : Money}
    → positive_price price ≡ done p
    → (price ≡ some p) × (pos 0 <ℤ p)
positive_price-some none h = cc
positive_price-some (some q) h = ground (arith, h)

covers-funded :
    (o : Option Balance) (amount : Money)
    → not (covers o amount) ≡ false
    → (b : Balance) × (o ≡ some b) × (amount ≤ℤ b.available)
covers-funded none amount h = cc
covers-funded (some b) amount h = (b, refl, ground (arith, h))

throw_if_only : (b : Bool) (e : LiveError) → throw_if b e ≡ done tt → b ≡ false
throw_if_only true e h = cc
throw_if_only false e h = refl

session_ioc : (a b : Bool) → a ≡ true → (a && not b) ≡ false → b ≡ true
session_ioc true true e h = refl
session_ioc true false e h = cc
session_ioc false b e h = cc

lift-done : {A : Type 0} (m : Result A) {a : A} → lift m ≡ done a → m ≡ ok a
lift-done (ok b) h = ground (arith, h)
lift-done (err e) h = cc

module _ {F : Type 0} (r : Replies F) (order : NewOrder) (price : Money)
    (priced : order.price ≡ some price) where
  check_funds-funded :
      (side : Side) (balances : List Balance)
      → check_funds side r order balances ≡ done tt
      → (balance : Balance) × (find_balance (currency_taken side order.symbol) balances
          ≡ some balance)
        × (amount_taken side order.quantity price ≤ℤ balance.available)
  unfolding check_funds
  check_funds-funded buy balances h =
      let (last, _, next) = >>=-eq-done r.ticker_last _ h in
      covers-funded _ _ (throw_if_only _ _ (rw priced at next))
  check_funds-funded sell balances h = covers-funded _ _ (throw_if_only _ _ h)

module _ {F : Type 0} (d : Doubles F) where
  check_exposure-IsExposureCapped :
      (cfg : LiveConfig F) (market : MarketInfo F) (side : Side) (quantity price : Money)
      → check_exposure d cfg market side quantity price ≡ done tt
      → IsExposureCapped d cfg market side quantity price
  unfolding check_exposure
  check_exposure-IsExposureCapped cfg market sell quantity price h = tt
  check_exposure-IsExposureCapped cfg market buy quantity price h =
      let (fee, f, next) =
        >>=-eq-done
          (lift (estimate_quote_fee d (Money.mul quantity price) (taker_of market.fee_info))) _ h in
      let within =
        throw_if_only (ltb_ℤ cfg.max_live_quote_notional (Money.add (Money.mul quantity price) fee))
          above_max_quote next in
      (fee, lift-done _ f, ground (arith, within))

  -- An order that passes validateOrder is a LIMIT order, IOC in a session, of a positive quantity within
  -- the cap, on the market's quantity grid and no less than its floors, at a positive price on the price
  -- grid, with a BUY's notional and fee within the cap, and covered by the available balance of what it
  -- takes.
  pub validate_order-IsSubmittable :
      (cfg : LiveConfig F) (r : Replies F) (order : NewOrder)
      → validate_order d cfg r order ≡ done tt
      → IsSubmittable d cfg r order
  unfolding validate_order assert_sufficient_balance
  validate_order-IsSubmittable cfg r order h0 =
      let (limit, h1) = throw_if-done (not (is_limit order.order_type)) not_limit _ h0 in
      let (session, h2) =
        throw_if-done (is_given_session cfg.autonomous_live_session && not (is_ioc order.tif))
          not_ioc _ h1 in
      let (positive, h3) =
        throw_if-done (not (Money.is_positive order.quantity)) quantity_not_positive _ h2 in
      let (market, read, h4) = >>=-eq-done r.market _ h3 in
      let (capped, h5) =
        throw_if-done (ltb_ℤ cfg.max_live_base_quantity order.quantity) above_max_base _ h4 in
      let (quantity_off, q, h6) =
        >>=-eq-done (is_off_grid order.quantity market.quantity_tick) _ h5 in
      let (q_on, h7) = throw_if-done quantity_off off_quantity_grid _ h6 in
      let (base_floor, h8) =
        throw_if-done (is_below order.quantity market.min_order_base) below_min_base _ h7 in
      let (price, p, h9) = >>=-eq-done (positive_price order.price) _ h8 in
      let (price_off, o, h10) = >>=-eq-done (is_off_grid price market.price_tick) _ h9 in
      let (p_on, h11) = throw_if-done price_off off_price_grid _ h10 in
      let (quote_floor, h12) =
        throw_if-done (is_below (Money.mul price order.quantity) market.min_order_quote)
          below_min_quote _ h11 in
      let (_, exposure, h13) =
        >>=-eq-done (check_exposure d cfg market order.side order.quantity price) _ h12 in
      let (balances, balances_read, h14) = >>=-eq-done r.balances _ h13 in
      let (priced, price_positive) = positive_price-some order.price p in
      let (balance, found, funded) =
        check_funds-funded r order price priced order.side balances h14 in
      record {
        limit_only = is_limit-limit order.order_type limit;
        ioc_in_session = λ given. is_ioc-ioc order.tif (session_ioc _ _ given session);
        positive = ground (arith, positive);
        capped = ground (arith, capped);
        market = market;
        market_read = read;
        quantity_on_grid = not_off_grid order.quantity market.quantity_tick (rw q_on at q);
        base_floor = not_below order.quantity market.min_order_base base_floor;
        price = price;
        priced = priced;
        price_positive = price_positive;
        price_on_grid = not_off_grid price market.price_tick (rw p_on at o);
        quote_floor = not_below (Money.mul price order.quantity) market.min_order_quote quote_floor;
        exposure =
            check_exposure-IsExposureCapped cfg market order.side order.quantity price exposure;
        balance = balance;
        balances = balances;
        balances_read = balances_read;
        found = found;
        funded = funded;
      }
