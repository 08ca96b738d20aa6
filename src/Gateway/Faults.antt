-- ===== src/Gateway/Faults.antt =====
-- The codes of a rejection, fault by fault: each control with the code that stands for its failure.
use hermes_personal_options.Common.{
  ℕ, ◌≡◌, refl, Bool, true, false, not, ◌&&◌, ◌||◌, none, some, List, [], ◌∷◌, arith, any, ltb,
  if◌then◌else◌,
}
use hermes_personal_options.Time.{AwareDateTime}
use hermes_personal_options.Schemas.Enums.{
  ReasonCode, is_live_stage, same_reason, account_type_not_permitted, minimum_equity_breach,
  instrument_not_permitted, contract_metadata_invalid, contract_spread_mismatch, dte_mismatch,
  delta_band_violation, strategy_not_live_approved, heat_limit_exceeded,
  buying_power_limit_exceeded, concentration_limit_exceeded, liquidity_gate_failed,
  execution_quality_suspended, drawdown_halt_active, human_rearm_required,
  protection_hierarchy_violation, entry_window_closed, event_blackout_active,
  data_timestamp_invalid, price_stale, ivr_stale, secondary_feed_mismatch,
  secondary_feed_not_certified,
}
use hermes_personal_options.Schemas.Account.{account_type_permitted, below_minimum_equity}
use hermes_personal_options.Schemas.TradeIntent.{short_delta_within_cap}
use hermes_personal_options.Schemas.PortfolioHeat.{
  heat_rejection_reason, risk_heat_ok, buying_power_heat_ok,
}
use hermes_personal_options.Schemas.Drawdown.{new_entries_allowed, requires_human_rearm}
use hermes_personal_options.Schemas.Instrument.{permission_reason}
use hermes_personal_options.Schemas.ContractMetadata.{
  is_tradable_as_of, spread_rejection_reason, spread_tradable_as_of, matches_candidate,
  matches_candidate_reason,
}
use hermes_personal_options.Schemas.MarketData.{
  BrokerDataSnapshot, timestamps, is_future, quote_limit, max_underlying_price_age_ms,
  max_vix_age_ms, max_iv_rank_age_ms, within_tolerance,
}
use hermes_personal_options.Schemas.MarketData.Freshness.{age}
use hermes_personal_options.Schemas.Liquidity.{liquidity_passes, suspended}
use hermes_personal_options.Schemas.Concentration.{concentration_passes}
use hermes_personal_options.Schemas.Protection.{
  protection_rejection_reason, multi_leg_rejection_reason, is_active,
}
use hermes_personal_options.Schemas.FeedCertification.{is_valid_for_live_as_of}
use hermes_personal_options.Gateway.Request.{
  GatewayRequest, dte_matches_claim, require_spx_feed_coverage, ct_minutes_since_midnight,
  is_zero_dte_after_2pm_ct,
}
use hermes_personal_options.Gateway.Gates.{
  code_list, contains, gate_account_mode, gate_instrument_permitted, gate_contract_metadata,
  gate_portfolio_heat, gate_drawdown, gate_protection, gate_multi_leg, gate_entry_window,
}
use hermes_personal_options.Gateway.Approval.{
  may_trade_underlying, is_protected, long_leg_safe, in_entry_window,
}

-- A condition that is a fault, and its code.
abbrev pub Fault : Type 0
Fault = Bool × ReasonCode

-- The first fault of the data's times.
abbrev pub data_faults : BrokerDataSnapshot → AwareDateTime → Bool → List Fault
data_faults s as_of late =
    let future = any (is_future as_of) (timestamps s) in
    let old_price =
      ltb (quote_limit late) (age s.option_quote_ts as_of)
      || ltb max_underlying_price_age_ms (age s.underlying_price_ts as_of) in
    let old_rank =
      ltb max_vix_age_ms (age s.vix_ts as_of)
      || ltb max_iv_rank_age_ms (age s.iv_rank_ts as_of)
      || not s.iv_rank_inputs_fresh in
    (future, data_timestamp_invalid)
    ∷ (not future && old_price, price_stale)
    ∷ (not future && not old_price && old_rank, ivr_stale)
    ∷ []

-- The faults of a request, control by control.
abbrev pub faults : (AwareDateTime → AwareDateTime) → GatewayRequest → List (List Fault)
faults chicago r =
    let halted = not (new_entries_allowed r.drawdown) in
    let s = r.spread_contract in
    ((not (account_type_permitted r.account), account_type_not_permitted)
      ∷ (below_minimum_equity r.account, minimum_equity_breach)
      ∷ [])
    ∷ ((not (may_trade_underlying r), instrument_not_permitted) ∷ [])
    ∷ ((
      not (is_tradable_as_of s.short_contract r.as_of && is_tradable_as_of s.long_contract r.as_of),
      contract_metadata_invalid,
    )
        ∷ (not (matches_candidate s r.candidate), contract_spread_mismatch)
        ∷ [])
    ∷ ((not (dte_matches_claim r), dte_mismatch) ∷ [])
    ∷ ((not (short_delta_within_cap r.candidate), delta_band_violation) ∷ [])
    ∷ ((not (is_live_stage r.strategy_stage.stage), strategy_not_live_approved) ∷ [])
    ∷ ((not (risk_heat_ok r.heat), heat_limit_exceeded)
        ∷ (risk_heat_ok r.heat && not (buying_power_heat_ok r.heat), buying_power_limit_exceeded)
        ∷ [])
    ∷ ((not (concentration_passes r.concentration), concentration_limit_exceeded) ∷ [])
    ∷ ((not (liquidity_passes r.liquidity), liquidity_gate_failed) ∷ [])
    ∷ ((suspended r.execution_quality, execution_quality_suspended) ∷ [])
    ∷ ((halted, drawdown_halt_active)
        ∷ (
          halted && (requires_human_rearm r.drawdown && not r.drawdown.human_rearm_granted),
          human_rearm_required,
        )
        ∷ [])
    ∷ ((not (is_protected r.protection), protection_hierarchy_violation) ∷ [])
    ∷ ((not (long_leg_safe r.multi_leg), protection_hierarchy_violation) ∷ [])
    ∷ ((not (in_entry_window (ct_minutes_since_midnight chicago r)), entry_window_closed) ∷ [])
    ∷ ((any (is_active r.as_of) r.event_calendar.blackouts, event_blackout_active) ∷ [])
    ∷ data_faults r.data_snapshot r.as_of (is_zero_dte_after_2pm_ct chicago r)
    ∷ ((not (within_tolerance r.reconciliation), secondary_feed_mismatch) ∷ [])
    ∷ ((
      not (is_valid_for_live_as_of r.feed_certification r.as_of (require_spx_feed_coverage r)),
      secondary_feed_not_certified,
    )
        ∷ [])
    ∷ []

-- A fault that is there, with the given code.
abbrev pub shows : ReasonCode → Fault → Bool
shows code f = f.0 && same_reason code f.1

infixr 20 ◌|≡◌
pub ◌|≡◌ : {a b c d : Bool} → a ≡ b → c ≡ d → (a || c) ≡ (b || d)
p |≡ q = cc

pub one_if :
    (test : Bool) (code k : ReasonCode)
    → contains code (code_list (if test then none else some k))
      ≡ any (shows code) ((not test, k) ∷ [])
one_if true code k = refl
one_if false code k = refl

pub one_unless :
    (test : Bool) (code k : ReasonCode)
    → contains code (code_list (if test then some k else none)) ≡ any (shows code) ((test, k) ∷ [])
one_unless true code k = refl
one_unless false code k = refl

module _ (r : GatewayRequest) (code : ReasonCode) where
  pub account_codes :
      contains code (gate_account_mode r.account)
      ≡ any (shows code) (
          (not (account_type_permitted r.account), account_type_not_permitted)
          ∷ (below_minimum_equity r.account, minimum_equity_breach)
          ∷ [])
  unfolding gate_account_mode
  account_codes = ground arith

  pub instrument_codes :
      contains code
        (code_list (gate_instrument_permitted r.instrument r.candidate r.underlying_policy r.as_of))
      ≡ any (shows code) ((not (may_trade_underlying r), instrument_not_permitted) ∷ [])
  unfolding gate_instrument_permitted permission_reason
  instrument_codes = ground arith

  pub contract_codes :
      contains code (gate_contract_metadata r.spread_contract r.candidate r.as_of)
      ≡ any (shows code) (
          (
            not (
                is_tradable_as_of r.spread_contract.short_contract r.as_of
                && is_tradable_as_of r.spread_contract.long_contract r.as_of),
            contract_metadata_invalid,
          )
          ∷ (not (matches_candidate r.spread_contract r.candidate), contract_spread_mismatch)
          ∷ [])
  unfolding gate_contract_metadata spread_rejection_reason spread_tradable_as_of is_tradable_as_of
      matches_candidate_reason same_reason
  contract_codes = ground arith

  pub heat_codes :
      contains code (code_list (gate_portfolio_heat r.heat))
      ≡ any (shows code) (
          (not (risk_heat_ok r.heat), heat_limit_exceeded)
          ∷ (risk_heat_ok r.heat && not (buying_power_heat_ok r.heat), buying_power_limit_exceeded)
          ∷ [])
  unfolding gate_portfolio_heat heat_rejection_reason
  heat_codes = ground arith

  pub drawdown_codes :
      contains code (gate_drawdown r.drawdown)
      ≡ any (shows code) (
          (not (new_entries_allowed r.drawdown), drawdown_halt_active)
          ∷ (
            not (new_entries_allowed r.drawdown)
                && (requires_human_rearm r.drawdown && not r.drawdown.human_rearm_granted),
            human_rearm_required,
          )
          ∷ [])
  unfolding gate_drawdown
  drawdown_codes = ground arith

  pub protection_codes :
      contains code (code_list (gate_protection r.protection))
      ≡ any (shows code) ((not (is_protected r.protection), protection_hierarchy_violation) ∷ [])
  unfolding gate_protection protection_rejection_reason
  protection_codes = ground arith

  pub leg_codes :
      contains code (code_list (gate_multi_leg r.multi_leg))
      ≡ any (shows code) ((not (long_leg_safe r.multi_leg), protection_hierarchy_violation) ∷ [])
  unfolding gate_multi_leg multi_leg_rejection_reason
  leg_codes = ground arith

  pub window_codes :
      (minutes : ℕ)
      → contains code (code_list (gate_entry_window minutes))
        ≡ any (shows code) ((not (in_entry_window minutes), entry_window_closed) ∷ [])
  unfolding gate_entry_window
  window_codes minutes = ground arith
