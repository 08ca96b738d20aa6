-- ===== src/Schemas/MarketData.antt =====
-- schemas/broker_data_snapshot.py and schemas/price_reconciliation.py: fresh data, two sources.
pub mod Freshness
use hermes_personal_options.Common.{
  ℕ, Bool, ◌&&◌, not, Option, none, some, List, [], ◌∷◌, Result, ok, err, ◌>>=◌, ltb, ◌==◌, any,
  if◌then◌else◌, suc,
}
use hermes_personal_options.Common.Int.{ℤ, pos, negsuc}
use hermes_personal_options.Decimal.{
  Decimal, zero_dec, decimal_of, le_dec, lt_dec, sub_dec, mul_dec, div_dec, abs_dec,
}
use hermes_personal_options.Float64.{whole_ms}
use hermes_personal_options.Time.{AwareDateTime, before, elapsed_us}
use hermes_personal_options.Schemas.Enums.{
  ReasonCode, price_stale, ivr_stale, data_timestamp_invalid, secondary_feed_mismatch,
}

pub data DataError : Type 0 where
  future_timestamp : DataError

abbrev pub max_quote_age_ms_normal : ℕ
max_quote_age_ms_normal = 1000

abbrev pub max_quote_age_ms_0dte_after_2pm_ct : ℕ
max_quote_age_ms_0dte_after_2pm_ct = 500

abbrev pub max_underlying_price_age_ms : ℕ
max_underlying_price_age_ms = 500

abbrev pub max_vix_age_ms : ℕ
max_vix_age_ms = 5000

abbrev pub max_iv_rank_age_ms : ℕ
max_iv_rank_age_ms = 10000

-- The age of an elapsed time: `int` drops the fraction towards 0, so up to one millisecond in the
-- future counts as age 0, and more of it raises.
abbrev elapsed_ms : ℤ → Result DataError ℕ
elapsed_ms (pos us) = ok (whole_ms us)
elapsed_ms (negsuc n) = if whole_ms (suc n) == 0 then ok 0 else err future_timestamp

-- `_age_ms`
unfoldable pub age_ms : AwareDateTime → AwareDateTime → Result DataError ℕ
age_ms ts as_of = elapsed_ms (elapsed_us ts as_of)

-- `_is_future`
abbrev pub is_future : AwareDateTime → AwareDateTime → Bool
is_future as_of ts = before as_of ts

pub record BrokerDataSnapshot : Type 0 where
  pub option_quote_ts : AwareDateTime
  pub underlying_price_ts : AwareDateTime
  pub vix_ts : AwareDateTime
  pub iv_rank_ts : AwareDateTime
  pub iv_rank_inputs_fresh : Bool
  pub iv_rank_value : Decimal

unfoldable pub snapshot_valid : BrokerDataSnapshot → Bool
snapshot_valid s = le_dec zero_dec s.iv_rank_value && le_dec s.iv_rank_value (decimal_of 100 0)

abbrev pub quote_limit : Bool → ℕ
quote_limit zero_dte_after_2pm_ct =
    if zero_dte_after_2pm_ct then max_quote_age_ms_0dte_after_2pm_ct else max_quote_age_ms_normal

abbrev pub timestamps : BrokerDataSnapshot → List AwareDateTime
timestamps s = s.option_quote_ts ∷ s.underlying_price_ts ∷ s.vix_ts ∷ s.iv_rank_ts ∷ []

-- One age against its limit: the code when too old, else the checks that follow.
abbrev pub stale_or :
    AwareDateTime
    → AwareDateTime
    → ℕ
    → ReasonCode
    → Result DataError (Option ReasonCode)
    → Result DataError (Option ReasonCode)
stale_or as_of ts max_age code next = do
  age ← age_ms ts as_of
  if ltb max_age age then ok (some code) else next

-- The freshness of the inputs, once every age is within its limit.
abbrev pub inputs_reason : Bool → Result DataError (Option ReasonCode)
inputs_reason fresh = if not fresh then ok (some ivr_stale) else ok none

unfoldable pub freshness_reason :
    BrokerDataSnapshot → AwareDateTime → Bool → Result DataError (Option ReasonCode)
freshness_reason s as_of zero_dte_after_2pm_ct =
    if any (is_future as_of) (timestamps s)
    then ok (some data_timestamp_invalid)
    else stale_or as_of s.option_quote_ts (quote_limit zero_dte_after_2pm_ct) price_stale (
        stale_or as_of s.underlying_price_ts max_underlying_price_age_ms price_stale (
          stale_or as_of s.vix_ts max_vix_age_ms ivr_stale (
            stale_or as_of s.iv_rank_ts max_iv_rank_age_ms ivr_stale
              (inputs_reason s.iv_rank_inputs_fresh))))

abbrev pub max_option_mid_divergence_pct : Decimal
max_option_mid_divergence_pct = decimal_of 20 1

abbrev pub max_option_mid_divergence_usd : Decimal
max_option_mid_divergence_usd = decimal_of 3 2

abbrev pub max_underlying_divergence_pct : Decimal
max_underlying_divergence_pct = decimal_of 25 2

pub record PriceReconciliationCheck : Type 0 where
  pub broker_option_mid : Decimal
  pub secondary_option_mid : Decimal
  pub broker_underlying : Decimal
  pub secondary_underlying : Decimal

unfoldable pub price_check_valid : PriceReconciliationCheck → Bool
price_check_valid p =
    lt_dec zero_dec p.broker_option_mid
    && lt_dec zero_dec p.secondary_option_mid
    && lt_dec zero_dec p.broker_underlying
    && lt_dec zero_dec p.secondary_underlying

unfoldable pub option_divergence_usd : PriceReconciliationCheck → Decimal
option_divergence_usd p = abs_dec (sub_dec p.broker_option_mid p.secondary_option_mid)

unfoldable pub option_divergence_pct : PriceReconciliationCheck → Decimal
unfolding option_divergence_usd
option_divergence_pct p =
    mul_dec (div_dec (option_divergence_usd p) p.broker_option_mid) (decimal_of 100 0)

unfoldable pub underlying_divergence_pct : PriceReconciliationCheck → Decimal
underlying_divergence_pct p =
    mul_dec
      (div_dec (abs_dec (sub_dec p.broker_underlying p.secondary_underlying)) p.broker_underlying)
      (decimal_of 100 0)

unfoldable pub within_tolerance : PriceReconciliationCheck → Bool
within_tolerance p =
    (le_dec (option_divergence_pct p) max_option_mid_divergence_pct
      && le_dec (option_divergence_usd p) max_option_mid_divergence_usd)
    && le_dec (underlying_divergence_pct p) max_underlying_divergence_pct

unfoldable pub reconciliation_rejection_reason : PriceReconciliationCheck → Option ReasonCode
reconciliation_rejection_reason p =
    if within_tolerance p then none else some secondary_feed_mismatch
