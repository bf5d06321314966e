-- ===== src/Reconcile/Classify/QuoteFee.antt =====
-- reconcile/feeDisposition.ts: which fees can be accounted.
use cryptotradingbot.Common.{
  ◌≡◌, ◌⊎◌, refl, ap, sym, true, inl, inr, Option, none, some, String, eq_iff, arith, Bool-cases,
}
use cryptotradingbot.Common.Int.{pos, ◌<ℤ◌}
use cryptotradingbot.Money
use cryptotradingbot.Money.{Money}
use cryptotradingbot.Portfolio.Ids.{is_empty}
use cryptotradingbot.Reconcile.Model.{
  FeeDisposition, quote_fee, base_fee, unknown_fee, malformed_fee,
}
use cryptotradingbot.Reconcile.Classify.{
  ProductIds, is_product, fee_product_disposition, product_disposition, resolve_fee_disposition,
  is_fee_automatable,
}

-- A positive fee is charged in the asset that the market has as its quote.
pub record IsChargedInQuote (product : Option String) (market : Option ProductIds) : Type 0 where
  pub asset : String
  pub ids : ProductIds
  pub charged_in : product ≡ some asset
  pub of_market : market ≡ some ids
  pub is_quote : ids.quote_product_id ≡ some asset

abbrev pub IsQuoteFee : Money → Option String → Option ProductIds → Type 0
IsQuoteFee fee product market = (fee ≡ pos 0) ⊎ ((pos 0 <ℤ fee) × IsChargedInQuote product market)

pub is_fee_automatable_lem :
    (fee : FeeDisposition) → is_fee_automatable fee ≡ true → fee ≡ quote_fee
unfolding is_fee_automatable
is_fee_automatable_lem quote_fee h = refl
is_fee_automatable_lem base_fee h = cc
is_fee_automatable_lem unknown_fee h = cc
is_fee_automatable_lem malformed_fee h = cc

is_product_lem :
    (id : Option String) (asset : String) → is_product id asset ≡ true → id ≡ some asset
is_product_lem none asset h = cc
is_product_lem (some id) asset h = ap some (sym ((eq_iff asset id).0 h))

product_disposition-charged :
    (product : Option String) (market : Option ProductIds)
    → product_disposition product market ≡ quote_fee
    → IsChargedInQuote product market
unfolding fee_product_disposition
product_disposition-charged none none h = cc
product_disposition-charged (some asset) none h = cc
product_disposition-charged none (some ids) h = cc
product_disposition-charged (some asset) (some ids) h = elim (Bool-cases (is_empty asset)) [
  | inl e ↦ absurd (ground (arith, e, h))
  | inr e ↦ elim (Bool-cases (is_product ids.quote_product_id asset)) [
    | inl q ↦ record {
      asset = asset;
      ids = ids;
      charged_in = refl;
      of_market = refl;
      is_quote = is_product_lem ids.quote_product_id asset q;
    }
    | inr q ↦ absurd (ground (arith, e, q, h))
  ]
]

pub quote_fee_lem :
    (fee : Money) (product : Option String) (market : Option ProductIds)
    → is_fee_automatable (resolve_fee_disposition fee product market) ≡ true
    → IsQuoteFee fee product market
unfolding resolve_fee_disposition
quote_fee_lem fee product market h =
    let resolved = is_fee_automatable_lem (resolve_fee_disposition fee product market) h in
    elim (Bool-cases (Money.is_negative fee)) [
      | inl n ↦ absurd (ground (arith, n, resolved))
      | inr n ↦ elim (Bool-cases (Money.is_zero fee)) [
        | inl z ↦ inl (ground (arith, z))
        | inr z ↦ inr (
          ground (arith, n, z),
          product_disposition-charged product market (ground (arith, n, z, resolved)),
        )
      ]
    ]
