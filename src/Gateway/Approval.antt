-- ===== src/Gateway/Approval.antt =====
-- What an approval means: the condition that each gate stands for, and that `validate` decides
-- their conjunction.
use hermes_personal_options.Common.{
  ℕ, ◌≡◌, refl, ◌∙◌, Bool, true, false, not, ◌&&◌, ◌||◌, Option, none, some, [], ◌∷◌, arith,
  is_empty, all, any, is_absent, leb, ltb, if◌then◌else◌,
}
use hermes_personal_options.Time.{AwareDateTime}
use hermes_personal_options.Schemas.Enums.{
  Underlying, xsp, spx, ReasonCode, same_underlying, is_live_stage, same_reason, dte_mismatch,
  delta_band_violation, strategy_not_live_approved, concentration_limit_exceeded,
  liquidity_gate_failed, execution_quality_suspended, event_blackout_active,
  secondary_feed_mismatch, secondary_feed_not_certified,
}
use hermes_personal_options.Schemas.Account.{new_entries_allowed_by_account_state}
use hermes_personal_options.Schemas.TradeIntent.{
  CandidateTradeIntent, short_delta_within_cap, delta_rejection_reason,
}
use hermes_personal_options.Schemas.PortfolioHeat.{heat_passes, heat_rejection_reason}
use hermes_personal_options.Schemas.PortfolioHeat.Token.{heat_rejection_reason-absent}
use hermes_personal_options.Schemas.Drawdown.{new_entries_allowed}
use hermes_personal_options.Schemas.Instrument.{
  AllowedUnderlyingPolicy, is_active_as_of, permission_reason, entry_window_open_ct_min,
  entry_window_close_ct_min,
}
use hermes_personal_options.Schemas.ContractMetadata.{
  SpreadContractMetadata, is_tradable_as_of, spread_rejection_reason, spread_tradable_as_of,
  matches_candidate, matches_candidate_reason,
}
use hermes_personal_options.Schemas.MarketData.{within_tolerance, reconciliation_rejection_reason}
use hermes_personal_options.Schemas.MarketData.Freshness.{
  is_fresh, Decides, freshness_reason-Decides,
}
use hermes_personal_options.Schemas.Liquidity.{
  liquidity_passes, liquidity_rejection_reason, suspended, execution_quality_rejection_reason,
}
use hermes_personal_options.Schemas.Concentration.{
  concentration_passes, concentration_rejection_reason,
}
use hermes_personal_options.Schemas.Protection.{
  ProtectionState, protection_rejection_reason, MultiLegPlan, multi_leg_rejection_reason, is_active,
  active_reason_as_of,
}
use hermes_personal_options.Schemas.StrategyStage.{rejection_reason_if_not_live}
use hermes_personal_options.Schemas.FeedCertification.{
  is_valid_for_live_as_of, feed_rejection_reason,
}
use hermes_personal_options.Gateway.Request.{
  GatewayRequest, dte_matches_claim, require_spx_feed_coverage, ct_minutes_since_midnight,
  is_zero_dte_after_2pm_ct,
}
use hermes_personal_options.Gateway.Gates.{
  code_list, gate_account_mode, gate_instrument_permitted, gate_contract_metadata, gate_dte_match,
  gate_delta_band, gate_strategy_live, gate_portfolio_heat, gate_concentration, gate_liquidity,
  gate_execution_quality, gate_drawdown, gate_protection, gate_multi_leg, gate_entry_window,
  gate_event_blackout, gate_data_freshness, gate_reconciliation, gate_feed_certification,
}
use hermes_personal_options.Gateway.Validate.{outcomes}

-- The policy is in force and enables the underlying.
abbrev pub underlying_enabled : AllowedUnderlyingPolicy → Underlying → Bool
underlying_enabled p xsp = p.xsp_enabled
underlying_enabled p spx = p.spx_phase_2_enabled

abbrev pub may_trade_underlying : GatewayRequest → Bool
may_trade_underlying r =
    same_underlying r.instrument.underlying r.candidate.underlying
    && (is_active_as_of r.underlying_policy r.as_of
        && underlying_enabled r.underlying_policy r.candidate.underlying)

-- Both contracts may be traded at that time, and they are the candidate's.
abbrev pub contracts_fit : SpreadContractMetadata → CandidateTradeIntent → AwareDateTime → Bool
contracts_fit s c as_of =
    is_tradable_as_of s.short_contract as_of
    && (is_tradable_as_of s.long_contract as_of && matches_candidate s c)

-- An emergency close, or a confirmed long leg that a stop of the agent does not stand in for.
abbrev pub is_protected : ProtectionState → Bool
is_protected p = p.is_emergency_close || (p.long_leg_confirmed && not p.agent_managed_stop_only)

-- The short leg is never alone in the market.
abbrev pub long_leg_safe : MultiLegPlan → Bool
long_leg_safe m = m.broker_confirms_atomic_combo || (not m.legging || m.long_leg_first)

abbrev pub in_entry_window : ℕ → Bool
in_entry_window minutes =
    leb entry_window_open_ct_min minutes && ltb minutes entry_window_close_ct_min

gate_account_mode-empty :
    (r : GatewayRequest)
    → is_empty (gate_account_mode r.account) ≡ new_entries_allowed_by_account_state r.account
unfolding gate_account_mode new_entries_allowed_by_account_state
gate_account_mode-empty r = ground arith

gate_instrument_permitted-empty :
    (r : GatewayRequest)
    → is_empty
        (code_list (gate_instrument_permitted r.instrument r.candidate r.underlying_policy r.as_of))
      ≡ may_trade_underlying r
unfolding gate_instrument_permitted permission_reason
gate_instrument_permitted-empty r = ground arith

gate_contract_metadata-empty :
    (s : SpreadContractMetadata) (c : CandidateTradeIntent) (as_of : AwareDateTime)
    → is_empty (gate_contract_metadata s c as_of) ≡ contracts_fit s c as_of
unfolding gate_contract_metadata spread_rejection_reason spread_tradable_as_of is_tradable_as_of
    matches_candidate_reason same_reason
gate_contract_metadata-empty s c as_of = ground arith

-- A gate of one code, by the test that it negates.
is_empty-code_list : (reason : Option ReasonCode) → is_empty (code_list reason) ≡ is_absent reason
is_empty-code_list none = refl
is_empty-code_list (some code) = refl

gate_entry_window-empty :
    (minutes : ℕ) → is_empty (code_list (gate_entry_window minutes)) ≡ in_entry_window minutes
unfolding gate_entry_window
gate_entry_window-empty minutes = ground arith

gate_drawdown-empty :
    (r : GatewayRequest) → is_empty (gate_drawdown r.drawdown) ≡ new_entries_allowed r.drawdown
unfolding gate_drawdown
gate_drawdown-empty r = ground arith

gate_protection-empty :
    (p : ProtectionState) → is_empty (code_list (gate_protection p)) ≡ is_protected p
unfolding gate_protection protection_rejection_reason
gate_protection-empty p = ground arith

gate_multi_leg-empty :
    (m : MultiLegPlan) → is_empty (code_list (gate_multi_leg m)) ≡ long_leg_safe m
unfolding gate_multi_leg multi_leg_rejection_reason
gate_multi_leg-empty m = ground arith

silent_if :
    (test : Bool) (code : ReasonCode)
    → is_empty (code_list (if test then none else some code)) ≡ test
silent_if true code = refl
silent_if false code = refl

silent_unless :
    (test : Bool) (code : ReasonCode)
    → is_empty (code_list (if test then some code else none)) ≡ not test
silent_unless true code = refl
silent_unless false code = refl

infixr 20 ◌&≡◌
◌&≡◌ : {a b c d : Bool} → a ≡ b → c ≡ d → (a && c) ≡ (b && d)
p &≡ q = cc

module _ (chicago : AwareDateTime → AwareDateTime) where
  -- Every control of the gateway, as a condition on the request.
  unfoldable pub cleared : GatewayRequest → Bool
  cleared r =
      all (λ (test : Bool). test)
        (new_entries_allowed_by_account_state r.account
          ∷ may_trade_underlying r
          ∷ contracts_fit r.spread_contract r.candidate r.as_of
          ∷ dte_matches_claim r
          ∷ short_delta_within_cap r.candidate
          ∷ is_live_stage r.strategy_stage.stage
          ∷ heat_passes r.heat
          ∷ concentration_passes r.concentration
          ∷ liquidity_passes r.liquidity
          ∷ not (suspended r.execution_quality)
          ∷ new_entries_allowed r.drawdown
          ∷ is_protected r.protection
          ∷ long_leg_safe r.multi_leg
          ∷ in_entry_window (ct_minutes_since_midnight chicago r)
          ∷ not (any (is_active r.as_of) r.event_calendar.blackouts)
          ∷ is_fresh r.data_snapshot r.as_of (is_zero_dte_after_2pm_ct chicago r)
          ∷ within_tolerance r.reconciliation
          ∷ is_valid_for_live_as_of r.feed_certification r.as_of (require_spx_feed_coverage r)
          ∷ [])

  -- The gates are all silent exactly when every control is met.
  pub outcomes-cleared :
      (r : GatewayRequest) (freshness : Option ReasonCode)
      → is_absent freshness ≡ is_fresh r.data_snapshot r.as_of (is_zero_dte_after_2pm_ct chicago r)
      → all is_empty (outcomes chicago r freshness) ≡ cleared r
  unfolding outcomes cleared gate_dte_match gate_delta_band delta_rejection_reason
      gate_strategy_live rejection_reason_if_not_live gate_portfolio_heat gate_concentration
      concentration_rejection_reason gate_liquidity liquidity_rejection_reason
      gate_execution_quality execution_quality_rejection_reason gate_event_blackout
      active_reason_as_of gate_reconciliation reconciliation_rejection_reason
      gate_feed_certification feed_rejection_reason
  outcomes-cleared r freshness fresh =
      gate_account_mode-empty r
      &≡ gate_instrument_permitted-empty r
      &≡ gate_contract_metadata-empty r.spread_contract r.candidate r.as_of
      &≡ silent_if (dte_matches_claim r) dte_mismatch
      &≡ silent_if (short_delta_within_cap r.candidate) delta_band_violation
      &≡ silent_if (is_live_stage r.strategy_stage.stage) strategy_not_live_approved
      &≡ (is_empty-code_list (heat_rejection_reason r.heat) ∙ heat_rejection_reason-absent r.heat)
      &≡ silent_if (concentration_passes r.concentration) concentration_limit_exceeded
      &≡ silent_if (liquidity_passes r.liquidity) liquidity_gate_failed
      &≡ silent_unless (suspended r.execution_quality) execution_quality_suspended
      &≡ gate_drawdown-empty r
      &≡ gate_protection-empty r.protection
      &≡ gate_multi_leg-empty r.multi_leg
      &≡ gate_entry_window-empty (ct_minutes_since_midnight chicago r)
      &≡ silent_unless (any (is_active r.as_of) r.event_calendar.blackouts) event_blackout_active
      &≡ (is_empty-code_list freshness ∙ fresh)
      &≡ silent_if (within_tolerance r.reconciliation) secondary_feed_mismatch
      &≡ silent_if
          (is_valid_for_live_as_of r.feed_certification r.as_of (require_spx_feed_coverage r))
          secondary_feed_not_certified
      &≡ refl

-- The freshness gate of a request, decided.
pub gate_data_freshness-Decides :
    (chicago : AwareDateTime → AwareDateTime) (r : GatewayRequest)
    → Decides
        (gate_data_freshness r.data_snapshot r.as_of (is_zero_dte_after_2pm_ct chicago r))
        (is_fresh r.data_snapshot r.as_of (is_zero_dte_after_2pm_ct chicago r))
unfolding gate_data_freshness
gate_data_freshness-Decides chicago r =
    freshness_reason-Decides r.data_snapshot r.as_of (is_zero_dte_after_2pm_ct chicago r)
