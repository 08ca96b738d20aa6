-- ===== src/Schemas/EnumText.antt =====
-- schemas/enums.py and position_state.py: the texts of the other values, and the value of a text.
use hermes_personal_options.Common.{
  Option, none, some, List, [], ◌∷◌, String, str_eq, if◌then◌else◌,
}
use hermes_personal_options.Schemas.Enums.{
  OrderType, limit, market, SubmitMode, ReArmMode, auto_next_session, human_only,
  human_only_after_review, EmergencyState, OrderLifecycleState, StrategyName,
  catastrophe_premium_capture, zero_dte_time_decay, Underlying, xsp, spx, OptionType, put, call,
  SpreadDirection, put_credit, call_credit, ReasonCode, reason_codes_in_order,
}
use hermes_personal_options.Schemas.PositionState.{PositionSnapshotSource}
use hermes_personal_options.Schemas.ReasonText.{reason_value}

abbrev pub lifecycle_value : OrderLifecycleState → String
lifecycle_value OrderLifecycleState.pending_submit = "PENDING_SUBMIT"
lifecycle_value OrderLifecycleState.submitted = "SUBMITTED"
lifecycle_value OrderLifecycleState.working = "WORKING"
lifecycle_value OrderLifecycleState.partial_fill = "PARTIAL_FILL"
lifecycle_value OrderLifecycleState.filled = "FILLED"
lifecycle_value OrderLifecycleState.cancelled = "CANCELLED"
lifecycle_value OrderLifecycleState.rejected = "REJECTED"
lifecycle_value OrderLifecycleState.expired = "EXPIRED"

abbrev pub order_type_value : OrderType → String
order_type_value limit = "LIMIT"
order_type_value market = "MARKET"

abbrev pub submit_mode_value : SubmitMode → String
submit_mode_value SubmitMode.live = "LIVE"
submit_mode_value SubmitMode.paper = "PAPER"

abbrev pub rearm_mode_value : ReArmMode → String
rearm_mode_value auto_next_session = "AUTO_NEXT_SESSION"
rearm_mode_value human_only = "HUMAN_ONLY"
rearm_mode_value human_only_after_review = "HUMAN_ONLY_AFTER_REVIEW"

abbrev pub emergency_state_value : EmergencyState → String
emergency_state_value EmergencyState.normal = "NORMAL"
emergency_state_value EmergencyState.broken_spread = "BROKEN_SPREAD"
emergency_state_value EmergencyState.emergency_risk_reduction = "EMERGENCY_RISK_REDUCTION"
emergency_state_value EmergencyState.forced_liquidation = "FORCED_LIQUIDATION"

abbrev pub strategy_value : StrategyName → String
strategy_value catastrophe_premium_capture = "catastrophe_premium_capture"
strategy_value zero_dte_time_decay = "zero_dte_time_decay"

abbrev pub underlying_value : Underlying → String
underlying_value xsp = "XSP"
underlying_value spx = "SPX"

abbrev pub option_type_value : OptionType → String
option_type_value put = "PUT"
option_type_value call = "CALL"

abbrev pub direction_value : SpreadDirection → String
direction_value put_credit = "PUT_CREDIT"
direction_value call_credit = "CALL_CREDIT"

-- `Enum(text)`: the member with that value, if there is one.
abbrev pub member_of : {A : Type 0} → (A → String) → List A → String → Option A
member_of value [] t = none
member_of value (a ∷ members) t =
    let later = member_of value members t in if str_eq (value a) t then some a else later

abbrev pub lifecycle_of : String → Option OrderLifecycleState
lifecycle_of = member_of lifecycle_value (
    OrderLifecycleState.pending_submit ∷ OrderLifecycleState.submitted ∷ OrderLifecycleState.working
    ∷ OrderLifecycleState.partial_fill ∷ OrderLifecycleState.filled ∷ OrderLifecycleState.cancelled
    ∷ OrderLifecycleState.rejected ∷ OrderLifecycleState.expired ∷ [])

abbrev pub order_type_of : String → Option OrderType
order_type_of = member_of order_type_value (limit ∷ market ∷ [])

abbrev pub submit_mode_of : String → Option SubmitMode
submit_mode_of = member_of submit_mode_value (SubmitMode.live ∷ SubmitMode.paper ∷ [])

abbrev pub rearm_mode_of : String → Option ReArmMode
rearm_mode_of =
    member_of rearm_mode_value (auto_next_session ∷ human_only ∷ human_only_after_review ∷ [])

abbrev pub emergency_state_of : String → Option EmergencyState
emergency_state_of = member_of emergency_state_value (
    EmergencyState.normal ∷ EmergencyState.broken_spread ∷ EmergencyState.emergency_risk_reduction
    ∷ EmergencyState.forced_liquidation ∷ [])

abbrev pub reason_of : String → Option ReasonCode
reason_of = member_of reason_value reason_codes_in_order

abbrev pub snapshot_source_value : PositionSnapshotSource → String
snapshot_source_value PositionSnapshotSource.broker_report = "BROKER_REPORT"
snapshot_source_value PositionSnapshotSource.execution_ledger = "EXECUTION_LEDGER"

abbrev pub snapshot_source_of : String → Option PositionSnapshotSource
snapshot_source_of =
    member_of snapshot_source_value
      (PositionSnapshotSource.broker_report ∷ PositionSnapshotSource.execution_ledger ∷ [])
