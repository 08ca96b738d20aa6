-- ===== src/Gateway/Request.antt =====
-- gateway/request.py: the whole input of one validation. `chicago` is `astimezone` into the zone
-- America/Chicago, whose data are not part of the repository.
use hermes_personal_options.Common.{ℕ, Bool, ◌&&◌, leb}
use hermes_personal_options.Common.Int.{pos, leb_ℤ}
use hermes_personal_options.Time.{AwareDateTime, minutes_since_midnight}
use hermes_personal_options.Schemas.Enums.{is_spx, same_underlying}
use hermes_personal_options.Schemas.TradeIntent.{CandidateTradeIntent, candidate_valid}
use hermes_personal_options.Schemas.Account.{AccountState, account_valid}
use hermes_personal_options.Schemas.PortfolioHeat.{PortfolioHeatCheck, heat_check_valid}
use hermes_personal_options.Schemas.Drawdown.{DrawdownHaltState, drawdown_valid}
use hermes_personal_options.Schemas.Instrument.{
  Instrument, AllowedUnderlyingPolicy, underlying_policy_valid,
}
use hermes_personal_options.Schemas.ContractMetadata.{
  SpreadContractMetadata, spread_contract_valid, derived_dte,
}
use hermes_personal_options.Schemas.MarketData.{
  BrokerDataSnapshot, snapshot_valid, PriceReconciliationCheck, price_check_valid,
}
use hermes_personal_options.Schemas.Liquidity.{
  LiquidityGate, liquidity_gate_valid, ExecutionQualityState, execution_quality_valid,
}
use hermes_personal_options.Schemas.Concentration.{ConcentrationSnapshot, concentration_valid}
use hermes_personal_options.Schemas.Protection.{
  ProtectionState, protection_valid, MultiLegPlan, multi_leg_valid, EventBlackoutCalendar,
  calendar_valid,
}
use hermes_personal_options.Schemas.StrategyStage.{StrategyStageState}
use hermes_personal_options.Schemas.FeedCertification.{
  SecondaryFeedCertification, feed_certification_valid,
}

pub record GatewayRequest : Type 0 where
  pub candidate : CandidateTradeIntent
  pub as_of : AwareDateTime
  pub account : AccountState
  pub heat : PortfolioHeatCheck
  pub drawdown : DrawdownHaltState
  pub instrument : Instrument
  pub spread_contract : SpreadContractMetadata
  pub underlying_policy : AllowedUnderlyingPolicy
  pub data_snapshot : BrokerDataSnapshot
  pub reconciliation : PriceReconciliationCheck
  pub liquidity : LiquidityGate
  pub execution_quality : ExecutionQualityState
  pub concentration : ConcentrationSnapshot
  pub protection : ProtectionState
  pub multi_leg : MultiLegPlan
  pub strategy_stage : StrategyStageState
  pub feed_certification : SecondaryFeedCertification
  pub event_calendar : EventBlackoutCalendar

-- The checks of every part, and `_cross_validate`: what holds of a request that exists.
unfoldable pub request_valid : GatewayRequest → Bool
request_valid r =
    candidate_valid r.candidate
    && account_valid r.account
    && heat_check_valid r.heat
    && drawdown_valid r.drawdown
    && spread_contract_valid r.spread_contract
    && underlying_policy_valid r.underlying_policy
    && snapshot_valid r.data_snapshot
    && price_check_valid r.reconciliation
    && liquidity_gate_valid r.liquidity
    && execution_quality_valid r.execution_quality
    && concentration_valid r.concentration
    && protection_valid r.protection
    && multi_leg_valid r.multi_leg
    && feed_certification_valid r.feed_certification
    && calendar_valid r.event_calendar
    && same_underlying r.instrument.underlying r.candidate.underlying

abbrev pub after_2pm_ct_min : ℕ
after_2pm_ct_min = 840

unfoldable pub require_spx_feed_coverage : GatewayRequest → Bool
require_spx_feed_coverage r = is_spx r.candidate.underlying

-- The LLM's claim against the date of the metadata.
unfoldable pub dte_matches_claim : GatewayRequest → Bool
dte_matches_claim r =
    let derived = derived_dte r.spread_contract r.as_of in
    leb_ℤ (pos r.candidate.dte) derived && leb_ℤ derived (pos r.candidate.dte)

module _ (chicago : AwareDateTime → AwareDateTime) where
  unfoldable pub ct_minutes_since_midnight : GatewayRequest → ℕ
  ct_minutes_since_midnight r = minutes_since_midnight (chicago r.as_of)

  unfoldable pub is_zero_dte_after_2pm_ct : GatewayRequest → Bool
  unfolding ct_minutes_since_midnight
  is_zero_dte_after_2pm_ct r =
      let derived = derived_dte r.spread_contract r.as_of in
      (leb_ℤ (pos 0) derived && leb_ℤ derived (pos 0))
      && leb after_2pm_ct_min (ct_minutes_since_midnight r)
