-- ===== src/Schemas/FeedCertification.antt =====
-- schemas/secondary_feed_certification.py: the certificate of the second price feed.
use hermes_personal_options.Common.{
  ℕ, ◌*◌, Bool, not, ◌&&◌, Option, none, some, List, [], ◌∷◌, String, Result, ok, err, leb, ltb,
  str_eq, any, all, is_empty, if◌then◌else◌,
}
use hermes_personal_options.Time.{AwareDateTime, before, plus_us, us_per_day}
use hermes_personal_options.Schemas.Enums.{
  FeedProvider, CertificationStatus, ReasonCode, secondary_feed_not_certified, is_certified,
}
use hermes_personal_options.Schemas.Model.{ModelError, validation_error}

abbrev pub certification_valid_days : ℕ
certification_valid_days = 30

abbrev pub recertification_triggers : List String
recertification_triggers =
    "broker_api_change" ∷ "data_provider_api_change" ∷ "symbol_mapping_change"
    ∷ "observed_latency_breach" ∷ "missing_contract_event" ∷ "new_underlying_added" ∷ []

pub record FeedCoverageStatus : Type 0 where
  pub covers_xsp : Bool
  pub covers_spx : Bool
  pub symbol_mapping_consistent : Bool

pub record FeedLatencyCheck : Type 0 where
  pub option_quote_latency_ms : ℕ
  pub underlying_quote_latency_ms : ℕ
  pub option_latency_threshold_ms : ℕ
  pub underlying_latency_threshold_ms : ℕ

abbrev pub within_thresholds : FeedLatencyCheck → Bool
within_thresholds l =
    leb l.option_quote_latency_ms l.option_latency_threshold_ms
    && leb l.underlying_quote_latency_ms l.underlying_latency_threshold_ms

pub record SecondaryFeedCertification : Type 0 where
  pub feed : FeedProvider
  pub status : CertificationStatus
  pub certified_at : AwareDateTime
  pub coverage : FeedCoverageStatus
  pub latency : FeedLatencyCheck
  pub pending_recertification_triggers : List String

abbrev pub expires_at : SecondaryFeedCertification → AwareDateTime
expires_at f = plus_us f.certified_at (certification_valid_days * us_per_day)

abbrev pub is_expired_as_of : SecondaryFeedCertification → AwareDateTime → Bool
is_expired_as_of f as_of = before (expires_at f) as_of

abbrev pub coverage_ok : FeedCoverageStatus → Bool → Bool
coverage_ok c require_spx =
    let base = c.covers_xsp && c.symbol_mapping_consistent in
    if require_spx then base && c.covers_spx else base

unfoldable pub is_valid_for_live_as_of : SecondaryFeedCertification → AwareDateTime → Bool → Bool
is_valid_for_live_as_of f as_of require_spx =
    is_certified f.status
    && not (is_expired_as_of f as_of)
    && is_empty f.pending_recertification_triggers
    && within_thresholds f.latency
    && coverage_ok f.coverage require_spx

unfoldable pub feed_rejection_reason :
    SecondaryFeedCertification → AwareDateTime → Bool → Option ReasonCode
feed_rejection_reason f as_of require_spx =
    if is_valid_for_live_as_of f as_of require_spx then none else some secondary_feed_not_certified

pub record CertifiedFeedToken : Type 0 where
  pub feed : FeedProvider

-- The token has no check of its own: its only field is an enum.
unfoldable pub to_live_feed_token :
    SecondaryFeedCertification → AwareDateTime → Bool → Result ModelError CertifiedFeedToken
to_live_feed_token f as_of require_spx =
    if not (is_valid_for_live_as_of f as_of require_spx)
    then err validation_error
    else ok (record { feed = f.feed })

-- The bounds of the latency fields, and `_status_consistency`.
unfoldable pub feed_certification_valid : SecondaryFeedCertification → Bool
feed_certification_valid f =
    ltb 0 f.latency.option_latency_threshold_ms
    && ltb 0 f.latency.underlying_latency_threshold_ms
    && not (not (is_empty f.pending_recertification_triggers) && is_certified f.status)
    && all (λ t. any (str_eq t) recertification_triggers) f.pending_recertification_triggers
