-- ===== src/Schemas/Approval.antt =====
-- schemas/approval_policy.py, risk_payload.py and promotion_drill.py: what needs a human, the verdict
-- of the four risk gates together, and the record of a drill.
use hermes_personal_options.Common.{
  Bool, not, ◌&&◌, ◌||◌, Option, none, some, is_absent, if◌then◌else◌,
}
use hermes_personal_options.Time.{AwareDateTime}
use hermes_personal_options.Schemas.Enums.{
  ReasonCode, human_rearm_required, strategy_not_live_approved, concentration_limit_exceeded,
  liquidity_gate_failed, execution_quality_suspended,
}
use hermes_personal_options.Schemas.PortfolioHeat.{
  PortfolioHeatCheck, heat_passes, heat_rejection_reason,
}
use hermes_personal_options.Schemas.Concentration.{ConcentrationSnapshot, concentration_passes}
use hermes_personal_options.Schemas.Liquidity.{
  LiquidityGate, liquidity_passes, ExecutionQualityState, suspended,
}

pub record ApprovalPolicy : Type 0 where
  pub is_money_movement : Bool
  pub is_strategy_promotion : Bool
  pub requires_human_rearm : Bool
  pub risk_payload_clean : Bool

unfoldable pub human_required : ApprovalPolicy → Bool
human_required p =
    p.is_money_movement
    || p.is_strategy_promotion
    || p.requires_human_rearm
    || not p.risk_payload_clean

unfoldable pub approval_rejection_reason : ApprovalPolicy → Option ReasonCode
approval_rejection_reason p =
    if p.requires_human_rearm
    then some human_rearm_required
    else if p.is_strategy_promotion
    then some strategy_not_live_approved
    else none

-- `_money_movement_is_never_auto`
unfoldable pub approval_policy_valid : ApprovalPolicy → Bool
unfolding human_required
approval_policy_valid p = not (p.is_money_movement && not (human_required p))

pub record RiskPayload : Type 0 where
  pub heat : PortfolioHeatCheck
  pub concentration : ConcentrationSnapshot
  pub liquidity : LiquidityGate
  pub execution_quality : ExecutionQualityState

unfoldable pub risk_rejection_reason : RiskPayload → Option ReasonCode
risk_rejection_reason r =
    if not (heat_passes r.heat)
    then heat_rejection_reason r.heat
    else if not (concentration_passes r.concentration)
    then some concentration_limit_exceeded
    else if not (liquidity_passes r.liquidity)
    then some liquidity_gate_failed
    else if suspended r.execution_quality
    then some execution_quality_suspended
    else none

unfoldable pub risk_approved : RiskPayload → Bool
unfolding risk_rejection_reason
risk_approved r = is_absent (risk_rejection_reason r)

pub data PromotionDrill : Type 0 where
  broker_disconnect stale_data broken_spread combo_order_partial_fill
        worker_crash_with_open_short_leg cancel_all_orders kill_temporal_worker_mid_order
        reconciliation_mismatch drawdown_halt :
      PromotionDrill

pub record PromotionDrillResult : Type 0 where
  pub drill : PromotionDrill
  pub ran_at : AwareDateTime
  pub system_halts_new_orders : Bool
  pub working_orders_cancel_or_native_managed : Bool
  pub human_required_event_emitted : Bool
  pub audit_artifact_created : Bool

unfoldable pub drill_passed : PromotionDrillResult → Bool
drill_passed d =
    d.system_halts_new_orders && d.working_orders_cancel_or_native_managed
    && d.human_required_event_emitted && d.audit_artifact_created
