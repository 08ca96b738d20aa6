-- ===== src/Reports/Records.antt =====
-- reports/records.py: the records of the daily reports.
use hermes_personal_options.Common.{
  ℕ, Bool, true, false, not, ◌&&◌, ◌||◌, Option, none, some, List, String, ltb, ◌==◌, str_eq,
  is_absent, Result, if◌then◌else◌,
}
use hermes_personal_options.Decimal.{Decimal, zero_dec, le_dec}
use hermes_personal_options.Time.{AwareDateTime, not_after}
use hermes_personal_options.Schemas.Enums.{
  DrawdownTier, EmergencyState, HumanRequiredKind, ReArmMode, ReasonCode,
}
use hermes_personal_options.Schemas.Model.{ModelError, construct}
use hermes_personal_options.Brokers.Paper.{BrokerMode}

pub data ReconciliationReportStatus : Type 0 where
  reconciled mismatch not_available : ReconciliationReportStatus

pub data DataFreshnessReportStatus : Type 0 where
  fresh stale not_tracked : DataFreshnessReportStatus

pub data KillSwitchReportStatus : Type 0 where
  halted armed unknown : KillSwitchReportStatus

pub record ReasonCodeTally : Type 0 where
  pub reason_code : ReasonCode
  pub count : ℕ

unfoldable pub tally_valid : ReasonCodeTally → Bool
tally_valid t = ltb 0 t.count

pub record KillSwitchSummary : Type 0 where
  pub status : KillSwitchReportStatus
  pub halted : Option Bool
  pub reason_code : Option ReasonCode
  pub rearm_mode : Option ReArmMode
  pub command_id : Option String

-- `value is True`, and `value is False`
abbrev is_true : Option Bool → Bool
is_true none = false
is_true (some b) = b

abbrev is_false : Option Bool → Bool
is_false none = false
is_false (some b) = not b

abbrev summary_coherent : KillSwitchSummary → KillSwitchReportStatus → Bool
summary_coherent k KillSwitchReportStatus.unknown =
    is_absent k.halted
    && is_absent k.reason_code
    && is_absent k.rearm_mode
    && is_absent k.command_id
summary_coherent k KillSwitchReportStatus.halted =
    is_true k.halted && not (is_absent k.reason_code || is_absent k.rearm_mode)
summary_coherent k KillSwitchReportStatus.armed =
    is_false k.halted && (is_absent k.reason_code && is_absent k.rearm_mode)

unfoldable pub kill_switch_summary_valid : KillSwitchSummary → Bool
kill_switch_summary_valid k = summary_coherent k k.status

pub record HumanRequiredSummary : Type 0 where
  pub kind : HumanRequiredKind
  pub reason_code : ReasonCode
  pub created_at : AwareDateTime
  pub resolved : Bool
  pub audit_artifact_id : String

unfoldable pub human_summary_valid : HumanRequiredSummary → Bool
human_summary_valid h = not (str_eq h.audit_artifact_id "")

pub record PositionSummary : Type 0 where
  pub available : Bool
  pub open_legs : ℕ
  pub open_contracts : ℕ
  pub snapshot_id : Option String
  pub as_of : Option AwareDateTime
  pub emergency_state : Option EmergencyState

unfoldable pub position_summary_valid : PositionSummary → Bool
position_summary_valid p =
    if p.available
    then not (is_absent p.snapshot_id || is_absent p.as_of || is_absent p.emergency_state)
    else p.open_legs == 0 && p.open_contracts == 0 && is_absent p.snapshot_id && is_absent p.as_of

pub record SystemIdentity : Type 0 where
  pub commit_sha : String
  pub config_hash : String
  pub strategy_version : String
  pub broker_mode : BrokerMode
  pub paper_trading : Bool

unfoldable pub identity_valid : SystemIdentity → Bool
identity_valid i =
    not (str_eq i.commit_sha "")
    && not (str_eq i.config_hash "")
    && not (str_eq i.strategy_version "")

-- `sha256` is the hex digest of a text.
unfoldable pub from_config_json :
    (String → String)
    → String
    → BrokerMode
    → Bool
    → String
    → String
    → Result ModelError SystemIdentity
from_config_json sha256 config_json broker_mode paper_trading commit_sha strategy_version =
    construct identity_valid (record {
      commit_sha = commit_sha;
      config_hash = sha256 config_json;
      strategy_version = strategy_version;
      broker_mode = broker_mode;
      paper_trading = paper_trading;
    })

pub record DailyReport : Type 0 where
  pub report_id : String
  pub report_date : String
  pub generated_at : AwareDateTime
  pub window_start : AwareDateTime
  pub window_end : AwareDateTime
  pub identity : SystemIdentity
  pub candidates_generated : ℕ
  pub gateway_approvals : ℕ
  pub gateway_rejections : ℕ
  pub rejections_by_reason : List ReasonCodeTally
  pub tickets_minted : ℕ
  pub paper_orders_submitted : ℕ
  pub fills : ℕ
  pub cancels : ℕ
  pub rejects : ℕ
  pub positions : PositionSummary
  pub reconciliation_status : ReconciliationReportStatus
  pub data_freshness : DataFreshnessReportStatus
  pub data_freshness_issues : List ReasonCode
  pub human_required_events : List HumanRequiredSummary
  pub kill_switch : KillSwitchSummary
  pub events_in_window : ℕ
  pub total_audit_events : ℕ

-- The bounds of the fields, and `_window_coherent`; the embedded models exist already.
unfoldable pub daily_report_valid : DailyReport → Bool
daily_report_valid r =
    not (str_eq r.report_id "")
    && not (str_eq r.report_date "")
    && not_after r.window_start r.window_end

pub record RiskReport : Type 0 where
  pub report_id : String
  pub report_date : String
  pub generated_at : AwareDateTime
  pub window_start : AwareDateTime
  pub window_end : AwareDateTime
  pub identity : SystemIdentity
  pub positions : PositionSummary
  pub fills : ℕ
  pub realized_pnl : Option Decimal
  pub pnl_supported : Bool
  pub max_drawdown : Option Decimal
  pub drawdown_supported : Bool
  pub drawdown_tier : Option DrawdownTier
  pub reconciliation_status : ReconciliationReportStatus
  pub kill_switch : KillSwitchSummary

-- A value is there exactly if it is supported.
abbrev present_iff {ℓ} : {A : Type ℓ} → Bool → Option A → Bool
present_iff supported value = if supported then not (is_absent value) else is_absent value

abbrev not_negative : Option Decimal → Bool
not_negative none = true
not_negative (some d) = le_dec zero_dec d

-- The bounds of the fields, and `_coherent`.
unfoldable pub risk_report_valid : RiskReport → Bool
risk_report_valid r =
    not (str_eq r.report_id "")
    && not (str_eq r.report_date "")
    && not_after r.window_start r.window_end
    && present_iff r.pnl_supported r.realized_pnl
    && present_iff r.drawdown_supported r.max_drawdown
    && present_iff r.drawdown_supported r.drawdown_tier
    && not_negative r.max_drawdown
