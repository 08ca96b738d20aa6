-- ===== src/Gateway/Validate.antt =====
-- gateway/gateway.py: every gate runs, the codes are collected, and a clean request is approved with
-- the three tokens. `request_digest` stands for the hash of the request's JSON and of the codes.
use hermes_personal_options.Common.{
  ℕ, Bool, true, false, Option, none, some, List, [], ◌∷◌, ◌++◌, Result, ok, err, ◌>>=◌, String,
  is_empty, length, concat, if◌then◌else◌,
}
use Prim.Native.String.{◌++◌ as append}
use hermes_personal_options.Common.Text.{show_ℕ}
use hermes_personal_options.Time.{AwareDateTime}
use hermes_personal_options.Schemas.EnumText.{underlying_value, direction_value}
use hermes_personal_options.Schemas.Enums.{IntentStatus, ReasonCode, internal_contradiction}
use hermes_personal_options.Schemas.MarketData.{DataError}
use hermes_personal_options.Schemas.Model.{ModelError, construct}
use hermes_personal_options.Schemas.Audit.{AuditArtifact, artifact_valid}
use hermes_personal_options.Schemas.TradeIntent.{ValidatedTradeIntent, validated_valid}
use hermes_personal_options.Schemas.PortfolioHeat.{approve}
use hermes_personal_options.Schemas.FeedCertification.{to_live_feed_token}
use hermes_personal_options.Schemas.StrategyStage.{to_live_token}
use hermes_personal_options.Gateway.Request.{
  GatewayRequest, dte_matches_claim, require_spx_feed_coverage, ct_minutes_since_midnight,
  is_zero_dte_after_2pm_ct,
}
use hermes_personal_options.Gateway.Gates.{
  code_list, contains, gate_account_mode, gate_instrument_permitted, gate_contract_metadata,
  gate_dte_match, gate_delta_band, gate_strategy_live, gate_portfolio_heat, gate_concentration,
  gate_liquidity, gate_execution_quality, gate_drawdown, gate_protection, gate_multi_leg,
  gate_entry_window, gate_event_blackout, gate_data_freshness, gate_reconciliation,
  gate_feed_certification,
}

pub record GatewayDecision : Type 0 where
  pub approved : Option ValidatedTradeIntent
  pub rejection : Option AuditArtifact
  pub reason_codes : List ReasonCode

-- What `validate` can raise: an age of the future, or an artifact that pydantic refuses.
pub data GatewayError : Type 0 where
  future_timestamp invalid_artifact : GatewayError

abbrev pub is_approved : GatewayDecision → Bool
is_approved d = elim d.approved [ none ↦ false | some v ↦ true ]

-- `add`: a code is appended unless it is there already.
unfoldable pub add : List ReasonCode → ReasonCode → List ReasonCode
add codes code = if contains code codes then codes else codes ++ code ∷ []

unfoldable pub add_all : List ReasonCode → List ReasonCode → List ReasonCode
unfolding add
add_all codes [] = codes
add_all codes (code ∷ many) = add_all (add codes code) many

-- `tuple(dict.fromkeys(codes))`
unfoldable pub dedupe : List ReasonCode → List ReasonCode
unfolding add_all
dedupe codes = add_all [] codes

-- The f-string of `_reject`.
abbrev pub rejection_detail : GatewayRequest → ℕ → String
rejection_detail r count = append "pre-trade validation rejected " (
    append (underlying_value r.candidate.underlying) (
      append " " (
        append (direction_value r.candidate.direction)
          (append " (" (append (show_ℕ count) " reason code(s))")))))

abbrev pub artifact_of : Result ModelError AuditArtifact → Result GatewayError AuditArtifact
artifact_of (ok a) = ok a
artifact_of (err e) = err invalid_artifact

-- The three tokens and the validated intent; a failure of any is caught.
unfoldable pub assemble : GatewayRequest → Result ModelError ValidatedTradeIntent
assemble r = do
  heat ← approve r.heat
  feed ← to_live_feed_token r.feed_certification r.as_of (require_spx_feed_coverage r)
  strategy ← to_live_token r.strategy_stage
  construct validated_valid (record {
    status = IntentStatus.validated;
    candidate = r.candidate;
    approved_heat = heat;
    certified_feed = feed;
    live_strategy = strategy;
  })

module _ (chicago : AwareDateTime → AwareDateTime) where
  -- What each gate emits, in the order of the calls, given the outcome of the freshness gate.
  unfoldable pub outcomes : GatewayRequest → Option ReasonCode → List (List ReasonCode)
  outcomes r freshness =
      gate_account_mode r.account
      ∷ code_list (gate_instrument_permitted r.instrument r.candidate r.underlying_policy r.as_of)
      ∷ gate_contract_metadata r.spread_contract r.candidate r.as_of
      ∷ code_list (gate_dte_match (dte_matches_claim r))
      ∷ code_list (gate_delta_band r.candidate)
      ∷ code_list (gate_strategy_live r.strategy_stage)
      ∷ code_list (gate_portfolio_heat r.heat)
      ∷ code_list (gate_concentration r.concentration)
      ∷ code_list (gate_liquidity r.liquidity)
      ∷ code_list (gate_execution_quality r.execution_quality)
      ∷ gate_drawdown r.drawdown
      ∷ code_list (gate_protection r.protection)
      ∷ code_list (gate_multi_leg r.multi_leg)
      ∷ code_list (gate_entry_window (ct_minutes_since_midnight chicago r))
      ∷ code_list (gate_event_blackout r.event_calendar r.as_of)
      ∷ code_list freshness
      ∷ code_list (gate_reconciliation r.reconciliation)
      ∷ code_list
          (gate_feed_certification r.feed_certification r.as_of (require_spx_feed_coverage r))
      ∷ []

-- The freshness gate computes an age, which raises for a timestamp of the future.
abbrev pub freshness_of :
    Result DataError (Option ReasonCode) → Result GatewayError (Option ReasonCode)
freshness_of (ok reason) = ok reason
freshness_of (err e) = err future_timestamp

module _ (request_digest : GatewayRequest → List ReasonCode → String) where
  unfoldable pub artifact_id : GatewayRequest → List ReasonCode → String
  artifact_id r codes = append "gw-reject-" (
      append (underlying_value r.candidate.underlying) (
        append "-"
          (append (direction_value r.candidate.direction) (append "-" (request_digest r codes)))))

  -- The artifact of a rejection.
  abbrev pub rejection_artifact : GatewayRequest → List ReasonCode → AuditArtifact
  rejection_artifact r deduped = record {
    artifact_id = artifact_id r deduped;
    created_at = r.as_of;
    decision = "REJECT";
    reason_codes = deduped;
    detail = rejection_detail r (length deduped);
  }

  -- `_reject`
  unfoldable pub reject : GatewayRequest → List ReasonCode → Result GatewayError GatewayDecision
  reject r codes = do
    let deduped = dedupe codes
    artifact ← artifact_of (construct artifact_valid (rejection_artifact r deduped))
    ok (record { approved = none; rejection = some artifact; reason_codes = deduped })

  -- `_approve`
  unfoldable pub approve_request : GatewayRequest → Result GatewayError GatewayDecision
  unfolding assemble reject
  approve_request r = elim (assemble r) [
    | ok v ↦ ok (record { approved = some v; rejection = none; reason_codes = [] })
    | err e ↦ reject r (internal_contradiction ∷ [])
  ]

  module _ (chicago : AwareDateTime → AwareDateTime) where
    unfoldable pub validate : GatewayRequest → Result GatewayError GatewayDecision
    unfolding outcomes add_all approve_request reject
    validate r = do
      freshness ←
          freshness_of
            (gate_data_freshness r.data_snapshot r.as_of (is_zero_dte_after_2pm_ct chicago r))
      let codes = add_all [] (concat (outcomes chicago r freshness))
      if is_empty codes then approve_request r else reject r codes
