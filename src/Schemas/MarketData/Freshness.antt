-- ===== src/Schemas/MarketData/Freshness.antt =====
-- What the freshness check decides, and that it does not raise.
use hermes_personal_options.Common.{
  ℕ, ◌≡◌, refl, Bool, true, false, not, ◌&&◌, Option, none, some, Result, ok, arith, leb, ltb, any,
  Bool-cases, inl, inr, is_absent,
}
use hermes_personal_options.Common.Int.{pos, pos_part, -ℤ_parts}
use hermes_personal_options.Float64.{whole_ms}
use hermes_personal_options.Time.{AwareDateTime, elapsed_us, instant}
use hermes_personal_options.Schemas.Enums.{
  ReasonCode, data_timestamp_invalid, price_stale, ivr_stale,
}
use hermes_personal_options.Schemas.MarketData.{
  BrokerDataSnapshot, DataError, timestamps, is_future, age_ms, freshness_reason, quote_limit,
  max_underlying_price_age_ms, max_vix_age_ms, max_iv_rank_age_ms, stale_or, inputs_reason,
}

-- The age of a timestamp that is not in the future, in whole milliseconds.
abbrev pub age : AwareDateTime → AwareDateTime → ℕ
age ts as_of = whole_ms (pos_part (elapsed_us ts as_of))

-- Every timestamp is past, every age within its limit, and the inputs of the IV rank are fresh.
unfoldable pub is_fresh : BrokerDataSnapshot → AwareDateTime → Bool → Bool
is_fresh s as_of late =
    not (any (is_future as_of) (timestamps s))
    && (leb (age s.option_quote_ts as_of) (quote_limit late)
        && (leb (age s.underlying_price_ts as_of) max_underlying_price_age_ms
            && (leb (age s.vix_ts as_of) max_vix_age_ms
                && (leb (age s.iv_rank_ts as_of) max_iv_rank_age_ms && s.iv_rank_inputs_fresh))))

elapsed_past :
    (ts as_of : AwareDateTime)
    → is_future as_of ts ≡ false
    → elapsed_us ts as_of ≡ pos (pos_part (elapsed_us ts as_of))
unfolding elapsed_us
elapsed_past ts as_of h = ground (arith, -ℤ_parts (instant as_of) (instant ts))

pub age_ms_past :
    (ts as_of : AwareDateTime) → is_future as_of ts ≡ false → age_ms ts as_of ≡ ok (age ts as_of)
unfolding age_ms
age_ms_past ts as_of h = rw (elapsed_past ts as_of h) refl

-- A check that does not raise, and that finds nothing exactly when the test holds.
abbrev pub Decides : Result DataError (Option ReasonCode) → Bool → Type 0
Decides result test =
    (reason : Option ReasonCode) × (result ≡ ok reason) × (is_absent reason ≡ test)

stale_or-Decides :
    (as_of ts : AwareDateTime) (max_age : ℕ) (code : ReasonCode)
    → (next : Result DataError (Option ReasonCode)) (test : Bool) → is_future as_of ts ≡ false
    → Decides next test
    → Decides (stale_or as_of ts max_age code next) (leb (age ts as_of) max_age && test)
stale_or-Decides as_of ts max_age code next test past (reason, e, d) =
    rw (age_ms_past ts as_of past) (elim (Bool-cases (ltb max_age (age ts as_of))) [
      | inl old ↦ (some code, rw old, ground arith)
      | inr young ↦ (reason, rw young e, ground arith)
    ])

inputs_reason-Decides : (fresh : Bool) → Decides (inputs_reason fresh) fresh
inputs_reason-Decides true = (none, refl, refl)
inputs_reason-Decides false = (some ivr_stale, refl, refl)

-- The check never raises, and it finds no reason exactly when the data are fresh.
pub freshness_reason-Decides :
    (s : BrokerDataSnapshot) (as_of : AwareDateTime) (late : Bool)
    → Decides (freshness_reason s as_of late) (is_fresh s as_of late)
unfolding freshness_reason is_fresh
freshness_reason-Decides s as_of late = elim (Bool-cases (any (is_future as_of) (timestamps s))) [
  | inl future ↦ (some data_timestamp_invalid, rw future, rw future)
  | inr past ↦ rw past (
      stale_or-Decides as_of s.option_quote_ts (quote_limit late) price_stale _ _ (ground arith) (
        stale_or-Decides as_of s.underlying_price_ts max_underlying_price_age_ms price_stale _ _
          (ground arith)
          (stale_or-Decides as_of s.vix_ts max_vix_age_ms ivr_stale _ _ (ground arith) (
            stale_or-Decides as_of s.iv_rank_ts max_iv_rank_age_ms ivr_stale _ _ (ground arith)
              (inputs_reason-Decides s.iv_rank_inputs_fresh)))))
]
