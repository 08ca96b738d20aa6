-- ===== src/Gateway/Rejection.antt =====
-- The codes of a decision: `validate` answers with those of the faults, and with no other.
use hermes_personal_options.Common.{
  ℕ, ◌≡◌, refl, sym, ◌∙◌, ap, Bool, true, false, not, ◌&&◌, Option, none, some, List, [], ◌∷◌, ok,
  Result, arith, any, any-concat, concat, ltb, is_empty, is_absent, ok-injective, String,
  if◌then◌else◌, Bool-cases, inl, inr,
}
use hermes_personal_options.Time.{AwareDateTime}
use hermes_personal_options.Schemas.Enums.{
  ReasonCode, is_live_stage, same_reason, dte_mismatch, delta_band_violation,
  strategy_not_live_approved, concentration_limit_exceeded, liquidity_gate_failed,
  execution_quality_suspended, event_blackout_active, data_timestamp_invalid, price_stale,
  ivr_stale, secondary_feed_mismatch, secondary_feed_not_certified,
}
use hermes_personal_options.Schemas.TradeIntent.{short_delta_within_cap, delta_rejection_reason}
use hermes_personal_options.Schemas.MarketData.{
  BrokerDataSnapshot, timestamps, is_future, quote_limit, max_underlying_price_age_ms,
  max_vix_age_ms, max_iv_rank_age_ms, within_tolerance, reconciliation_rejection_reason,
  freshness_reason, stale_or, inputs_reason, DataError,
}
use hermes_personal_options.Schemas.MarketData.Freshness.{age, age_ms_past}
use hermes_personal_options.Schemas.Liquidity.{
  liquidity_passes, liquidity_rejection_reason, suspended, execution_quality_rejection_reason,
}
use hermes_personal_options.Schemas.Concentration.{
  concentration_passes, concentration_rejection_reason,
}
use hermes_personal_options.Schemas.Protection.{is_active, active_reason_as_of}
use hermes_personal_options.Schemas.StrategyStage.{rejection_reason_if_not_live}
use hermes_personal_options.Schemas.FeedCertification.{
  is_valid_for_live_as_of, feed_rejection_reason,
}
use hermes_personal_options.Gateway.Request.{
  GatewayRequest, request_valid, dte_matches_claim, require_spx_feed_coverage,
  ct_minutes_since_midnight, is_zero_dte_after_2pm_ct,
}
use hermes_personal_options.Gateway.Gates.{
  code_list, contains, gate_dte_match, gate_delta_band, gate_strategy_live, gate_concentration,
  gate_liquidity, gate_execution_quality, gate_event_blackout, gate_data_freshness,
  gate_reconciliation, gate_feed_certification,
}
use hermes_personal_options.Gateway.Validate.{GatewayDecision, outcomes, validate}
use hermes_personal_options.Gateway.Codes.{no_repeats, no_repeats-add_all, contains-add_all}
use hermes_personal_options.Gateway.Approval.{cleared, gate_data_freshness-Decides}
use hermes_personal_options.Gateway.Decision.{
  decision, violations, violations-empty, validate-decides,
}
use hermes_personal_options.Gateway.Faults.{
  data_faults, faults, shows, one_if, one_unless, account_codes, instrument_codes, contract_codes,
  heat_codes, drawdown_codes, protection_codes, leg_codes, window_codes, ◌|≡◌,
}

-- The freshness check answers the first fault of the times.
abbrev Finds : ReasonCode → Result DataError (Option ReasonCode) → Bool → Type 0
Finds code result test =
    (reason : Option ReasonCode) × (result ≡ ok reason) × (contains code (code_list reason) ≡ test)

stale_or-Finds :
    (code : ReasonCode) (as_of ts : AwareDateTime) (limit : ℕ) (k : ReasonCode)
    (next : Result DataError (Option ReasonCode)) (test : Bool)
    → is_future as_of ts ≡ false
    → Finds code next test
    → Finds code
        (stale_or as_of ts limit k next)
        (if ltb limit (age ts as_of) then same_reason code k else test)
stale_or-Finds code as_of ts limit k next test past (reason, e, d) =
    rw (age_ms_past ts as_of past) (elim (Bool-cases (ltb limit (age ts as_of))) [
      | inl old ↦ (some k, rw old refl, rw old (ground arith))
      | inr young ↦ (reason, rw young e, rw young d)
    ])

Finds-same :
    (code : ReasonCode) (result : Result DataError (Option ReasonCode)) (test other : Bool)
    → test ≡ other
    → Finds code result test
    → Finds code result other
Finds-same code result test other same (reason, e, d) = (reason, e, d ∙ same)

inputs_reason-Finds :
    (code : ReasonCode) (fresh : Bool)
    → Finds code (inputs_reason fresh) (not fresh && same_reason code ivr_stale)
inputs_reason-Finds code true = (none, refl, refl)
inputs_reason-Finds code false = (some ivr_stale, refl, ground arith)

freshness_reason-Finds :
    (code : ReasonCode) (s : BrokerDataSnapshot) (as_of : AwareDateTime) (late : Bool)
    → Finds code (freshness_reason s as_of late) (any (shows code) (data_faults s as_of late))
unfolding freshness_reason
freshness_reason-Finds code s as_of late =
    elim (Bool-cases (any (is_future as_of) (timestamps s))) [
      | inl future ↦ (some data_timestamp_invalid, rw future refl, rw future (ground arith))
      | inr past ↦ rw past (
          Finds-same code _ _ _ (ground arith) (
            stale_or-Finds code as_of s.option_quote_ts (quote_limit late) price_stale _ _
              (ground arith)
              (stale_or-Finds code as_of s.underlying_price_ts max_underlying_price_age_ms
                price_stale _ _ (ground arith)
                (stale_or-Finds code as_of s.vix_ts max_vix_age_ms ivr_stale _ _ (ground arith) (
                  stale_or-Finds code as_of s.iv_rank_ts max_iv_rank_age_ms ivr_stale _ _
                    (ground arith) (inputs_reason-Finds code s.iv_rank_inputs_fresh))))))
    ]

module _ (chicago : AwareDateTime → AwareDateTime) where
  outcomes-faults :
      (r : GatewayRequest) (code : ReasonCode) (freshness : Option ReasonCode)
      → contains code (code_list freshness)
        ≡ any
            (shows code)
            (data_faults r.data_snapshot r.as_of (is_zero_dte_after_2pm_ct chicago r))
      → any (contains code) (outcomes chicago r freshness)
        ≡ any (any (shows code)) (faults chicago r)
  unfolding outcomes gate_dte_match gate_delta_band delta_rejection_reason gate_strategy_live
      rejection_reason_if_not_live gate_concentration concentration_rejection_reason gate_liquidity
      liquidity_rejection_reason gate_execution_quality execution_quality_rejection_reason
      gate_event_blackout active_reason_as_of gate_reconciliation reconciliation_rejection_reason
      gate_feed_certification feed_rejection_reason
  outcomes-faults r code freshness times =
      account_codes r code
      |≡ instrument_codes r code
      |≡ contract_codes r code
      |≡ one_if (dte_matches_claim r) code dte_mismatch
      |≡ one_if (short_delta_within_cap r.candidate) code delta_band_violation
      |≡ one_if (is_live_stage r.strategy_stage.stage) code strategy_not_live_approved
      |≡ heat_codes r code
      |≡ one_if (concentration_passes r.concentration) code concentration_limit_exceeded
      |≡ one_if (liquidity_passes r.liquidity) code liquidity_gate_failed
      |≡ one_unless (suspended r.execution_quality) code execution_quality_suspended
      |≡ drawdown_codes r code
      |≡ protection_codes r code
      |≡ leg_codes r code
      |≡ window_codes r code (ct_minutes_since_midnight chicago r)
      |≡ one_unless (any (is_active r.as_of) r.event_calendar.blackouts) code event_blackout_active
      |≡ times
      |≡ one_if (within_tolerance r.reconciliation) code secondary_feed_mismatch
      |≡ one_if (is_valid_for_live_as_of r.feed_certification r.as_of (require_spx_feed_coverage r))
          code secondary_feed_not_certified
      |≡ refl

  none_contained :
      (code : ReasonCode) (codes : List ReasonCode)
      → is_empty codes ≡ true
      → contains code codes ≡ false
  none_contained code [] h = refl
  none_contained code (c ∷ codes) h = absurd (cc h)

  module _ (request_digest : GatewayRequest → List ReasonCode → String) where
    decision-codes :
        (r : GatewayRequest) (code : ReasonCode) (freshness : Option ReasonCode)
        → is_empty (violations request_digest chicago r freshness) ≡ cleared chicago r
        → (no_repeats (decision request_digest chicago r freshness).reason_codes ≡ true)
          × (contains code (decision request_digest chicago r freshness).reason_codes
              ≡ contains code (violations request_digest chicago r freshness))
    decision-codes r code freshness empty = elim (Bool-cases (cleared chicago r)) [
      | inl met ↦ rw met (refl, sym (none_contained code _ (empty ∙ met)))
      | inr failed ↦
          rw failed (no_repeats-add_all [] (concat (outcomes chicago r freshness)) refl, refl)
    ]

    -- A decision on a request that exists has a code exactly if the request has a fault of that code: a
    -- control that fails, where a control of several faults has each that is there, and the times of the
    -- data and the heat have their first. No code stands twice.
    pub validate-codes :
        (r : GatewayRequest) (code : ReasonCode)
        → request_valid r ≡ true
        → (d : GatewayDecision) × (validate request_digest chicago r ≡ ok d)
          × (no_repeats d.reason_codes ≡ true)
          × (contains code d.reason_codes ≡ any (any (shows code)) (faults chicago r))
    unfolding gate_data_freshness
    validate-codes r code valid =
        let late = is_zero_dte_after_2pm_ct chicago r in
        let (freshness, e, decided) = validate-decides request_digest chicago r valid in
        let (reason, e', absent) = gate_data_freshness-Decides chicago r in
        let (first, e'', found) = freshness_reason-Finds code r.data_snapshot r.as_of late in
        let same : reason ≡ freshness = ok-injective (sym e' ∙ e) in
        let same' : first ≡ freshness = ok-injective (sym e'' ∙ e) in
        let fresh = ap is_absent (sym same) ∙ absent in
        let times = ap (λ f. contains code (code_list f)) (sym same') ∙ found in
        let (once, codes) =
          decision-codes r code freshness
            (violations-empty request_digest chicago r freshness fresh) in
        (
          decision request_digest chicago r freshness,
          decided,
          once,
          codes
              ∙ contains-add_all code [] (concat (outcomes chicago r freshness))
              ∙ any-concat (same_reason code) (outcomes chicago r freshness)
              ∙ outcomes-faults r code freshness times,
        )
