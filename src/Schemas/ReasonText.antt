-- ===== src/Schemas/ReasonText.antt =====
-- schemas/enums.py: the text of a reason code.
use hermes_personal_options.Common.{String}
use hermes_personal_options.Schemas.Enums.{ReasonCode}

-- `reason_code.value`
abbrev pub reason_value : ReasonCode → String
reason_value ReasonCode.price_stale = "PRICE_STALE"
reason_value ReasonCode.ivr_stale = "IVR_STALE"
reason_value ReasonCode.account_type_not_permitted = "ACCOUNT_TYPE_NOT_PERMITTED"
reason_value ReasonCode.minimum_equity_breach = "MINIMUM_EQUITY_BREACH"
reason_value ReasonCode.drawdown_halt_active = "DRAWDOWN_HALT_ACTIVE"
reason_value ReasonCode.secondary_feed_mismatch = "SECONDARY_FEED_MISMATCH"
reason_value ReasonCode.heat_limit_exceeded = "HEAT_LIMIT_EXCEEDED"
reason_value ReasonCode.buying_power_limit_exceeded = "BUYING_POWER_LIMIT_EXCEEDED"
reason_value ReasonCode.delta_band_violation = "DELTA_BAND_VIOLATION"
reason_value ReasonCode.entry_window_closed = "ENTRY_WINDOW_CLOSED"
reason_value ReasonCode.event_blackout_active = "EVENT_BLACKOUT_ACTIVE"
reason_value ReasonCode.contract_metadata_invalid = "CONTRACT_METADATA_INVALID"
reason_value ReasonCode.liquidity_gate_failed = "LIQUIDITY_GATE_FAILED"
reason_value ReasonCode.broken_spread_state = "BROKEN_SPREAD_STATE"
reason_value ReasonCode.human_rearm_required = "HUMAN_REARM_REQUIRED"
reason_value ReasonCode.anti_martingale_violation = "ANTI_MARTINGALE_VIOLATION"
reason_value ReasonCode.concentration_limit_exceeded = "CONCENTRATION_LIMIT_EXCEEDED"
reason_value ReasonCode.protection_hierarchy_violation = "PROTECTION_HIERARCHY_VIOLATION"
reason_value ReasonCode.secondary_feed_not_certified = "SECONDARY_FEED_NOT_CERTIFIED"
reason_value ReasonCode.execution_quality_suspended = "EXECUTION_QUALITY_SUSPENDED"
reason_value ReasonCode.strategy_not_live_approved = "STRATEGY_NOT_LIVE_APPROVED"
reason_value ReasonCode.instrument_not_permitted = "INSTRUMENT_NOT_PERMITTED"
reason_value ReasonCode.internal_contradiction = "INTERNAL_CONTRADICTION"
reason_value ReasonCode.data_timestamp_invalid = "DATA_TIMESTAMP_INVALID"
reason_value ReasonCode.dte_mismatch = "DTE_MISMATCH"
reason_value ReasonCode.contract_spread_mismatch = "CONTRACT_SPREAD_MISMATCH"
reason_value ReasonCode.reconciliation_mismatch = "RECONCILIATION_MISMATCH"
reason_value ReasonCode.operator_halt_command = "OPERATOR_HALT_COMMAND"
reason_value ReasonCode.operator_resume_command = "OPERATOR_RESUME_COMMAND"
reason_value ReasonCode.operator_cancel_command = "OPERATOR_CANCEL_COMMAND"
reason_value ReasonCode.operator_flatten_command = "OPERATOR_FLATTEN_COMMAND"
