-- ===== src/Gateway/Decision.antt =====
-- The decision of `validate`: it never raises for a request that exists, and it approves exactly the
-- requests that meet every control.
use Prim.Native.String.{◌++◌ as append}
use Prim.Native.String.append
use Prim.Native.Char.{Char}
use text.Mathlib.TextLemmas.{cons≢nil}
use hermes_personal_options.Common.{
  ◌≡◌, refl, sym, ◌∙◌, ap, true, false, Option, none, some, List, [], ok, arith, is_empty,
  is_absent, String, concat, is_empty-concat, Bool-cases, inl, inr, str_eq, eq_iff, if◌then◌else◌,
}
use hermes_personal_options.Time.{AwareDateTime}
use hermes_personal_options.Schemas.Enums.{ReasonCode, is_live_stage, IntentStatus}
use hermes_personal_options.Schemas.Model.{construct-ok}
use hermes_personal_options.Schemas.Audit.{artifact_valid, is_refusal}
use hermes_personal_options.Schemas.TradeIntent.{
  ValidatedTradeIntent, validated_valid, short_delta_within_cap,
}
use hermes_personal_options.Schemas.PortfolioHeat.{heat_check_valid, heat_passes}
use hermes_personal_options.Schemas.PortfolioHeat.Token.{heat_token, approve-decides}
use hermes_personal_options.Schemas.FeedCertification.{to_live_feed_token, is_valid_for_live_as_of}
use hermes_personal_options.Schemas.StrategyStage.{to_live_token, live_token_valid}
use hermes_personal_options.Schemas.MarketData.Freshness.{is_fresh}
use hermes_personal_options.Gateway.Request.{
  GatewayRequest, request_valid, require_spx_feed_coverage, is_zero_dte_after_2pm_ct,
}
use hermes_personal_options.Gateway.Gates.{gate_data_freshness}
use hermes_personal_options.Gateway.Validate.{
  GatewayDecision, add_all, dedupe, outcomes, validate, assemble, reject, rejection_artifact,
  approve_request, artifact_id,
}
use hermes_personal_options.Gateway.Codes.{is_empty-add_all, dedupe-add_all}
use hermes_personal_options.Gateway.Approval.{
  cleared, outcomes-cleared, gate_data_freshness-Decides,
}

-- The validated intent of a request, with the three tokens.
abbrev pub validated_intent : GatewayRequest → ValidatedTradeIntent
validated_intent r = record {
  status = IntentStatus.validated;
  candidate = r.candidate;
  approved_heat = heat_token r.heat;
  certified_feed = record { feed = r.feed_certification.feed };
  live_strategy = record { stage = r.strategy_stage.stage };
}

-- The decision that approves.
abbrev pub decision_of_intent : GatewayRequest → GatewayDecision
decision_of_intent r = record {
  approved = some (validated_intent r);
  rejection = none;
  reason_codes = [];
}

feed_token_met :
    (r : GatewayRequest)
    → is_valid_for_live_as_of r.feed_certification r.as_of (require_spx_feed_coverage r) ≡ true
    → to_live_feed_token r.feed_certification r.as_of (require_spx_feed_coverage r)
      ≡ ok (record { feed = r.feed_certification.feed })
unfolding to_live_feed_token
feed_token_met r h = rw h

strategy_token_met :
    (r : GatewayRequest)
    → is_live_stage r.strategy_stage.stage ≡ true
    → to_live_token r.strategy_stage ≡ ok (record { stage = r.strategy_stage.stage })
unfolding to_live_token
strategy_token_met r h = construct-ok live_token_valid (record { stage = r.strategy_stage.stage }) h

intent_met :
    (r : GatewayRequest)
    → short_delta_within_cap r.candidate ≡ true
    → validated_valid (validated_intent r) ≡ true
unfolding validated_valid
intent_met r h = h

assemble_met :
    (r : GatewayRequest)
    → heat_check_valid r.heat ≡ true
    → heat_passes r.heat ≡ true
    → is_valid_for_live_as_of r.feed_certification r.as_of (require_spx_feed_coverage r) ≡ true
    → is_live_stage r.strategy_stage.stage ≡ true
    → short_delta_within_cap r.candidate ≡ true
    → assemble r ≡ ok (validated_intent r)
unfolding assemble
assemble_met r valid heat feed live delta = ground (
  arith,
  approve-decides r.heat valid,
  feed_token_met r feed,
  strategy_token_met r live,
  construct-ok validated_valid (validated_intent r) (intent_met r delta),
)

request_valid-heat : (r : GatewayRequest) → request_valid r ≡ true → heat_check_valid r.heat ≡ true
unfolding request_valid
request_valid-heat r h = ground arith

-- The three tokens are minted and the intent assembled, once every control is met.
assemble-cleared :
    (chicago : AwareDateTime → AwareDateTime) (r : GatewayRequest)
    → request_valid r ≡ true
    → cleared chicago r ≡ true
    → assemble r ≡ ok (validated_intent r)
unfolding cleared
assemble-cleared chicago r valid clear =
    assemble_met r (request_valid-heat r valid) (ground arith) (ground arith) (ground arith)
      (ground arith)

prefixed_nonempty : (c : Char) (s t : String) → str_eq (append (String.◌∷◌ c s) t) "" ≡ false
prefixed_nonempty c s t = elim (Bool-cases (str_eq (append (String.◌∷◌ c s) t) "")) [
  | inl same ↦ absurd (cons≢nil (sym (λ i. append.cons c s t i) ∙ (eq_iff _ _).0 same))
  | inr other ↦ other
]

module _ (request_digest : GatewayRequest → List ReasonCode → String) where
  artifact_id-nonempty :
      (r : GatewayRequest) (codes : List ReasonCode)
      → str_eq (artifact_id request_digest r codes) "" ≡ false
  unfolding artifact_id
  artifact_id-nonempty r codes = prefixed_nonempty _ _ _

  rejection_artifact-valid :
      (r : GatewayRequest) (codes : List ReasonCode)
      → is_empty codes ≡ false
      → artifact_valid (rejection_artifact request_digest r codes) ≡ true
  unfolding artifact_valid is_refusal
  rejection_artifact-valid r codes h = rw (artifact_id-nonempty r codes) (rw h refl)

  -- The decision that rejects with the given codes.
  abbrev pub rejected_with : GatewayRequest → List ReasonCode → GatewayDecision
  rejected_with r codes = record {
    approved = none;
    rejection = some (rejection_artifact request_digest r codes);
    reason_codes = codes;
  }

  -- A rejection with a code is an artifact that pydantic accepts.
  reject-ok :
      (r : GatewayRequest) (codes : List ReasonCode)
      → is_empty (dedupe codes) ≡ false
      → reject request_digest r codes ≡ ok (rejected_with r (dedupe codes))
  unfolding reject
  reject-ok r codes h = rw (
      construct-ok artifact_valid (rejection_artifact request_digest r (dedupe codes))
        (rejection_artifact-valid r (dedupe codes) h))

  module _ (chicago : AwareDateTime → AwareDateTime) where
    -- The codes of all violations, each once, in the order of the gates.
    abbrev pub violations : GatewayRequest → Option ReasonCode → List ReasonCode
    violations r freshness = add_all [] (concat (outcomes chicago r freshness))

    -- The decision of a request whose freshness gate gave the given outcome.
    abbrev pub decision : GatewayRequest → Option ReasonCode → GatewayDecision
    decision r freshness =
        if cleared chicago r then decision_of_intent r else rejected_with r (violations r freshness)

    pub violations-empty :
        (r : GatewayRequest) (freshness : Option ReasonCode)
        → is_absent freshness
          ≡ is_fresh r.data_snapshot r.as_of (is_zero_dte_after_2pm_ct chicago r)
        → is_empty (violations r freshness) ≡ cleared chicago r
    violations-empty r freshness fresh =
        is_empty-add_all (concat (outcomes chicago r freshness))
        ∙ is_empty-concat (outcomes chicago r freshness)
        ∙ outcomes-cleared chicago r freshness fresh

    approve_request-ok :
        (r : GatewayRequest)
        → request_valid r ≡ true
        → cleared chicago r ≡ true
        → approve_request request_digest r ≡ ok (decision_of_intent r)
    unfolding approve_request
    approve_request-ok r valid met = rw (assemble-cleared chicago r valid met, approve_request)

    reject-violations-ok :
        (r : GatewayRequest) (freshness : Option ReasonCode)
        → is_empty (violations r freshness) ≡ false
        → reject request_digest r (violations r freshness)
          ≡ ok (rejected_with r (violations r freshness))
    reject-violations-ok r freshness some_code =
        let same = dedupe-add_all (concat (outcomes chicago r freshness)) in
        reject-ok r (violations r freshness) (ap is_empty same ∙ some_code)
        ∙ ap (λ codes. ok (rejected_with r codes)) same

    validate_step :
        (r : GatewayRequest) (freshness : Option ReasonCode)
        → gate_data_freshness r.data_snapshot r.as_of (is_zero_dte_after_2pm_ct chicago r)
          ≡ ok freshness
        → validate request_digest chicago r ≡ (
            if is_empty (violations r freshness)
            then approve_request request_digest r
            else reject request_digest r (violations r freshness))
    unfolding validate
    validate_step r freshness e = rw e

    -- `validate` returns a decision for every request that exists: the approval of the validated
    -- intent if every control is met, and else the rejection with the codes of all violations.
    pub validate-decides :
        (r : GatewayRequest)
        → request_valid r ≡ true
        → (freshness : Option ReasonCode) × (gate_data_freshness r.data_snapshot r.as_of
              (is_zero_dte_after_2pm_ct chicago r)
            ≡ ok freshness)
          × (validate request_digest chicago r ≡ ok (decision r freshness))
    validate-decides r valid =
        let (freshness, e, fresh) = gate_data_freshness-Decides chicago r in
        (
          freshness,
          e,
          validate_step r freshness e ∙ elim (Bool-cases (cleared chicago r)) [
            | inl met ↦
                rw (violations-empty r freshness fresh) (rw met (approve_request-ok r valid met))
            | inr failed ↦
                let some_code = violations-empty r freshness fresh ∙ failed in
                rw some_code (rw failed (reject-violations-ok r freshness some_code))
          ],
        )
