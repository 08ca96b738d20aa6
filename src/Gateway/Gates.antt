-- ===== src/Gateway/Gates.antt =====
-- gateway/gates.py: a pure function for each control. A gate returns the code of the violation, or
-- `none`; a gate that can find several violations returns their list.
use hermes_personal_options.Common.{
  ℕ, Bool, not, ◌&&◌, Option, none, some, List, [], ◌∷◌, ◌++◌, Result, leb, ltb, any, if◌then◌else◌,
}
use hermes_personal_options.Time.{AwareDateTime}
use hermes_personal_options.Schemas.Enums.{
  ReasonCode, account_type_not_permitted, minimum_equity_breach, instrument_not_permitted,
  contract_metadata_invalid, dte_mismatch, drawdown_halt_active, human_rearm_required,
  entry_window_closed, same_underlying, same_reason,
}
use hermes_personal_options.Schemas.TradeIntent.{CandidateTradeIntent, delta_rejection_reason}
use hermes_personal_options.Schemas.Account.{
  AccountState, account_type_permitted, below_minimum_equity,
}
use hermes_personal_options.Schemas.PortfolioHeat.{PortfolioHeatCheck, heat_rejection_reason}
use hermes_personal_options.Schemas.Drawdown.{
  DrawdownHaltState, new_entries_allowed, requires_human_rearm,
}
use hermes_personal_options.Schemas.Instrument.{
  Instrument, AllowedUnderlyingPolicy, permission_reason, entry_window_open_ct_min,
  entry_window_close_ct_min,
}
use hermes_personal_options.Schemas.ContractMetadata.{
  SpreadContractMetadata, spread_rejection_reason, spread_tradable_as_of, matches_candidate_reason,
}
use hermes_personal_options.Schemas.MarketData.{
  BrokerDataSnapshot, DataError, freshness_reason, PriceReconciliationCheck,
  reconciliation_rejection_reason,
}
use hermes_personal_options.Schemas.Liquidity.{
  LiquidityGate, liquidity_rejection_reason, ExecutionQualityState,
  execution_quality_rejection_reason,
}
use hermes_personal_options.Schemas.Concentration.{
  ConcentrationSnapshot, concentration_rejection_reason,
}
use hermes_personal_options.Schemas.Protection.{
  ProtectionState, protection_rejection_reason, MultiLegPlan, multi_leg_rejection_reason,
  EventBlackoutCalendar, active_reason_as_of,
}
use hermes_personal_options.Schemas.StrategyStage.{StrategyStageState, rejection_reason_if_not_live}
use hermes_personal_options.Schemas.FeedCertification.{
  SecondaryFeedCertification, feed_rejection_reason,
}

-- The code that a test appends to a list.
abbrev pub code_if : Bool → ReasonCode → List ReasonCode
code_if test code = if test then code ∷ [] else []

-- The code of a gate as a list of at most one.
abbrev pub code_list : Option ReasonCode → List ReasonCode
code_list none = []
code_list (some code) = code ∷ []

-- `code in codes`
abbrev pub contains : ReasonCode → List ReasonCode → Bool
contains code codes = any (same_reason code) codes

unfoldable pub gate_account_mode : AccountState → List ReasonCode
gate_account_mode account =
    code_if (not (account_type_permitted account)) account_type_not_permitted
    ++ code_if (below_minimum_equity account) minimum_equity_breach

unfoldable pub gate_instrument_permitted :
    Instrument → CandidateTradeIntent → AllowedUnderlyingPolicy → AwareDateTime → Option ReasonCode
gate_instrument_permitted instrument candidate policy as_of =
    if not (same_underlying instrument.underlying candidate.underlying)
    then some instrument_not_permitted
    else permission_reason policy candidate.underlying as_of

-- A contract past its last trading time adds the code of the mandate once only.
unfoldable pub gate_contract_metadata :
    SpreadContractMetadata → CandidateTradeIntent → AwareDateTime → List ReasonCode
gate_contract_metadata spread_contract candidate as_of =
    let mandate = code_list (spread_rejection_reason spread_contract) in
    let untradable =
      not (spread_tradable_as_of spread_contract as_of)
      && not (contains contract_metadata_invalid mandate) in
    mandate
    ++ (code_if untradable contract_metadata_invalid
        ++ code_list (matches_candidate_reason spread_contract candidate))

unfoldable pub gate_dte_match : Bool → Option ReasonCode
gate_dte_match dte_matches_claim = if dte_matches_claim then none else some dte_mismatch

unfoldable pub gate_delta_band : CandidateTradeIntent → Option ReasonCode
gate_delta_band candidate = delta_rejection_reason candidate

unfoldable pub gate_portfolio_heat : PortfolioHeatCheck → Option ReasonCode
gate_portfolio_heat heat = heat_rejection_reason heat

unfoldable pub gate_concentration : ConcentrationSnapshot → Option ReasonCode
gate_concentration concentration = concentration_rejection_reason concentration

unfoldable pub gate_liquidity : LiquidityGate → Option ReasonCode
gate_liquidity liquidity = liquidity_rejection_reason liquidity

unfoldable pub gate_execution_quality : ExecutionQualityState → Option ReasonCode
gate_execution_quality quality = execution_quality_rejection_reason quality

unfoldable pub gate_drawdown : DrawdownHaltState → List ReasonCode
gate_drawdown drawdown =
    if new_entries_allowed drawdown
    then []
    else drawdown_halt_active
      ∷ code_if (requires_human_rearm drawdown && not drawdown.human_rearm_granted)
          human_rearm_required

unfoldable pub gate_protection : ProtectionState → Option ReasonCode
gate_protection protection = protection_rejection_reason protection

unfoldable pub gate_multi_leg : MultiLegPlan → Option ReasonCode
gate_multi_leg multi_leg = multi_leg_rejection_reason multi_leg

-- Open at the first bound, closed at the second.
unfoldable pub gate_entry_window : ℕ → Option ReasonCode
gate_entry_window minutes =
    if not (leb entry_window_open_ct_min minutes && ltb minutes entry_window_close_ct_min)
    then some entry_window_closed
    else none

unfoldable pub gate_event_blackout : EventBlackoutCalendar → AwareDateTime → Option ReasonCode
gate_event_blackout calendar as_of = active_reason_as_of calendar as_of

unfoldable pub gate_data_freshness :
    BrokerDataSnapshot → AwareDateTime → Bool → Result DataError (Option ReasonCode)
gate_data_freshness snapshot as_of zero_dte_after_2pm_ct =
    freshness_reason snapshot as_of zero_dte_after_2pm_ct

unfoldable pub gate_reconciliation : PriceReconciliationCheck → Option ReasonCode
gate_reconciliation reconciliation = reconciliation_rejection_reason reconciliation

unfoldable pub gate_feed_certification :
    SecondaryFeedCertification → AwareDateTime → Bool → Option ReasonCode
gate_feed_certification feed as_of require_spx = feed_rejection_reason feed as_of require_spx

unfoldable pub gate_strategy_live : StrategyStageState → Option ReasonCode
gate_strategy_live strategy_stage = rejection_reason_if_not_live strategy_stage
