-- ===== src/MarketData/Freshness.antt =====
-- marketdata/freshness.ts. A time is a number of milliseconds, an integer here; a time that may be
-- null or undefined is an Option.
use cryptotradingbot.Common.{
  ◌≡◌, refl, Bool, false, not, Option, none, some, arith, if◌then◌else◌, List, [], ◌∷◌,
}
use cryptotradingbot.Common.Int.{ℤ, pos, ◌-ℤ◌, ◌+ℤ◌, ◌<ℤ◌, ◌≤ℤ◌, ltb_ℤ, int_laws}

pub record FreshnessPolicy : Type 0 where
  pub max_quote_age_ms : ℤ
  pub max_transport_age_ms : ℤ
  pub max_acceptable_future_skew_ms : ℤ

pub data QuoteFreshnessReason : Type 0 where
  quote_missing quote_malformed quote_stale quote_ahead_of_clock : QuoteFreshnessReason
  transport_missing transport_malformed transport_stale : QuoteFreshnessReason

pub data FreshnessCheck : Type 0 where
  fresh : FreshnessCheck
  unfresh : QuoteFreshnessReason → FreshnessCheck

-- isValidEpochMs, of a number
abbrev pub is_valid_epoch_ms : ℤ → Bool
is_valid_epoch_ms v = ltb_ℤ (pos 0) v

pub record FreshnessInput : Type 0 where
  pub now_ms : ℤ
  pub quote_timestamp_ms : Option ℤ
  pub observed_at_ms : Option ℤ
  pub policy : FreshnessPolicy

-- The transport dimension.
unfoldable pub check_transport : FreshnessInput → Option ℤ → FreshnessCheck
check_transport input none = unfresh transport_missing
check_transport input (some observed_at_ms) =
    if not (is_valid_epoch_ms observed_at_ms)
    then unfresh transport_malformed
    else (if ltb_ℤ input.policy.max_transport_age_ms (input.now_ms -ℤ observed_at_ms)
        then unfresh transport_stale
        else fresh)

unfoldable pub check_quote : FreshnessInput → Option ℤ → FreshnessCheck
unfolding check_transport
check_quote input none = unfresh quote_missing
check_quote input (some quote_timestamp_ms) =
    if not (is_valid_epoch_ms quote_timestamp_ms)
    then unfresh quote_malformed
    else (if ltb_ℤ input.policy.max_quote_age_ms (input.now_ms -ℤ quote_timestamp_ms)
        then unfresh quote_stale
        else (if ltb_ℤ input.policy.max_acceptable_future_skew_ms
              (quote_timestamp_ms -ℤ input.now_ms)
            then unfresh quote_ahead_of_clock
            else check_transport input input.observed_at_ms))

unfoldable pub evaluate_freshness : FreshnessInput → FreshnessCheck
unfolding check_quote
evaluate_freshness input = check_quote input input.quote_timestamp_ms

-- The valid ones of two candidate times.
abbrev pub usable : Option ℤ → List ℤ → List ℤ
usable none rest = rest
usable (some v) rest = if is_valid_epoch_ms v then v ∷ rest else rest

-- `Math.max(...candidates)`, from the first candidate on
unfoldable pub greatest : ℤ → List ℤ → ℤ
greatest best [] = best
greatest best (v ∷ rest) = greatest (if ltb_ℤ best v then v else best) rest

abbrev pub newest_of : List ℤ → Option ℤ
newest_of [] = none
newest_of (v ∷ rest) = some (greatest v rest)

-- newestQuoteTimestampMs, of the times of the ticker and of the order book
unfoldable pub newest_quote_timestamp_ms : Option ℤ → Option ℤ → Option ℤ
unfolding greatest
newest_quote_timestamp_ms ticker order_book = newest_of (usable ticker (usable order_book []))

-- A time that is positive, no older than the age allowed, and (the quote) not too far ahead.
pub record IsFresh (input : FreshnessInput) : Type 0 where
  pub quote : ℤ
  pub quoted : input.quote_timestamp_ms ≡ some quote
  pub quote_valid : pos 0 <ℤ quote
  pub quote_young : input.now_ms ≤ℤ quote +ℤ input.policy.max_quote_age_ms
  pub quote_not_ahead : quote ≤ℤ input.now_ms +ℤ input.policy.max_acceptable_future_skew_ms
  pub observed : ℤ
  pub seen : input.observed_at_ms ≡ some observed
  pub observed_valid : pos 0 <ℤ observed
  pub observed_young : input.now_ms ≤ℤ observed +ℤ input.policy.max_transport_age_ms

not-valid : (o : ℤ) → not (is_valid_epoch_ms o) ≡ false → pos 0 <ℤ o
not-valid o h = ground (arith, h)

within : (limit now t : ℤ) → ltb_ℤ limit (now -ℤ t) ≡ false → now ≤ℤ t +ℤ limit
within limit now t h = let le : now -ℤ t ≤ℤ limit = ground (arith, h) in omega (int_laws, le)

not-below : (limit now t : ℤ) → now ≤ℤ t +ℤ limit → ltb_ℤ limit (now -ℤ t) ≡ false
not-below limit now t h = let le : now -ℤ t ≤ℤ limit = omega (int_laws, h) in ground (arith, le)

check_transport-fresh :
    (input : FreshnessInput) (t : Option ℤ)
    → check_transport input t ≡ fresh
    → (o : ℤ) × (t ≡ some o)
      × (not (is_valid_epoch_ms o) ≡ false)
      × (ltb_ℤ input.policy.max_transport_age_ms (input.now_ms -ℤ o) ≡ false)
unfolding check_transport
check_transport-fresh input none h = cc
check_transport-fresh input (some o) h = (o, refl, ground (arith, h), ground (arith, h))

check_quote-fresh :
    (input : FreshnessInput) (t : Option ℤ)
    → check_quote input t ≡ fresh
    → (q : ℤ) × (t ≡ some q)
      × (not (is_valid_epoch_ms q) ≡ false)
      × (ltb_ℤ input.policy.max_quote_age_ms (input.now_ms -ℤ q) ≡ false)
      × (ltb_ℤ input.policy.max_acceptable_future_skew_ms (q -ℤ input.now_ms) ≡ false)
      × (check_transport input input.observed_at_ms ≡ fresh)
unfolding check_quote
check_quote-fresh input none h = cc
check_quote-fresh input (some q) h =
    (q, refl, ground (arith, h), ground (arith, h), ground (arith, h), ground (arith, h))

fresh-IsFresh : (input : FreshnessInput) → evaluate_freshness input ≡ fresh → IsFresh input
unfolding evaluate_freshness
fresh-IsFresh input h =
    let (q, eq, v, y, a, t) = check_quote-fresh input input.quote_timestamp_ms h in
    let (o, eo, w, z) = check_transport-fresh input input.observed_at_ms t in
    record {
      quote = q;
      quoted = eq;
      quote_valid = not-valid q v;
      quote_young = within input.policy.max_quote_age_ms input.now_ms q y;
      quote_not_ahead = within input.policy.max_acceptable_future_skew_ms q input.now_ms a;
      observed = o;
      seen = eo;
      observed_valid = not-valid o w;
      observed_young = within input.policy.max_transport_age_ms input.now_ms o z;
    }

IsFresh-fresh : (input : FreshnessInput) → IsFresh input → evaluate_freshness input ≡ fresh
unfolding evaluate_freshness check_quote check_transport
IsFresh-fresh input f = ground (
  arith,
  f.quoted,
  f.seen,
  f.quote_valid,
  f.observed_valid,
  not-below input.policy.max_quote_age_ms input.now_ms f.quote f.quote_young,
  not-below input.policy.max_acceptable_future_skew_ms f.quote input.now_ms f.quote_not_ahead,
  not-below input.policy.max_transport_age_ms input.now_ms f.observed f.observed_young,
)

-- `evaluateFreshness` accepts a snapshot exactly when both of its times are there, positive and
-- young enough, and the quote is not further ahead of the clock than the skew allowed.
pub evaluate_freshness-IsFresh :
    (input : FreshnessInput)
    → (evaluate_freshness input ≡ fresh → IsFresh input)
      × (IsFresh input → evaluate_freshness input ≡ fresh)
evaluate_freshness-IsFresh input = (fresh-IsFresh input, IsFresh-fresh input)
