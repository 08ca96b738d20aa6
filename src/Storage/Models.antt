-- ===== src/Storage/Models.antt =====
-- storage/models.py and storage/errors.py: the records that the store keeps, and what gives an object
-- back from a row. `Codec` is code of other packages: pydantic, hashlib, json and datetime.
use Prim.Native.String.{count as text_length}
use hermes_personal_options.Common.{
  ℕ, Bool, true, false, not, ◌&&◌, Option, none, some, String, Result, ok, err, leb, ◌==◌, str_eq,
  if◌then◌else◌,
}
use hermes_personal_options.Common.Text.{text_prefix}
use hermes_personal_options.Decimal.{Decimal}
use hermes_personal_options.Time.{AwareDateTime}
use hermes_personal_options.Schemas.Enums.{OrderLifecycleState}
use hermes_personal_options.Schemas.TradeIntent.{ValidatedTradeIntent}
use hermes_personal_options.Schemas.OrderTicket.{OrderTicket, OrderRouteDecision}
use hermes_personal_options.Schemas.BrokerSubmission.{BrokerSubmitIntent, ExecutionReport}
use hermes_personal_options.Schemas.PositionState.{PositionSnapshot, PositionLeg}
use hermes_personal_options.Schemas.ReconciliationState.{ReconciliationSnapshot}
use hermes_personal_options.Schemas.KillSwitch.{KillSwitchState}
use hermes_personal_options.Schemas.Audit.{AuditArtifact, HumanRequiredEvent}
use hermes_personal_options.Gateway.Request.{GatewayRequest}
use hermes_personal_options.Reports.Records.{DailyReport, RiskReport}
use hermes_personal_options.Storage.Json.{Json}

pub data StorageError : Type 0 where
  duplicate_idempotency_key unrehydratable_record unverified_provenance payload_integrity
        secret_persistence not_persistable key_reserved invalid_object :
      StorageError

pub data RecordType : Type 0 where
  gateway_request gateway_decision validated_trade_intent order_route_decision order_ticket
        broker_submit_intent execution_report position_snapshot reconciliation_snapshot
        human_required_event kill_switch_state audit_artifact daily_report risk_report :
      RecordType

abbrev record_ordinal : RecordType → ℕ
record_ordinal gateway_request = 0
record_ordinal gateway_decision = 1
record_ordinal validated_trade_intent = 2
record_ordinal order_route_decision = 3
record_ordinal order_ticket = 4
record_ordinal broker_submit_intent = 5
record_ordinal execution_report = 6
record_ordinal position_snapshot = 7
record_ordinal reconciliation_snapshot = 8
record_ordinal human_required_event = 9
record_ordinal kill_switch_state = 10
record_ordinal audit_artifact = 11
record_ordinal daily_report = 12
record_ordinal risk_report = 13

-- `a is b`
abbrev pub same_type : RecordType → RecordType → Bool
same_type a b = record_ordinal a == record_ordinal b

-- An object of a model, by its exact class; `other` is of a class that the store does not know.
pub data HermesObject : Type 0 where
  gateway_request : GatewayRequest → HermesObject
  validated_trade_intent : ValidatedTradeIntent → HermesObject
  order_route_decision : OrderRouteDecision → HermesObject
  order_ticket : OrderTicket → HermesObject
  broker_submit_intent : BrokerSubmitIntent → HermesObject
  execution_report : ExecutionReport → HermesObject
  position_snapshot : PositionSnapshot → HermesObject
  reconciliation_snapshot : ReconciliationSnapshot → HermesObject
  human_required_event : HumanRequiredEvent → HermesObject
  kill_switch_state : KillSwitchState → HermesObject
  audit_artifact : AuditArtifact → HermesObject
  daily_report : DailyReport → HermesObject
  risk_report : RiskReport → HermesObject
  other : String → HermesObject

pub record Codec : Type 0 where
  pub model_dump_json : HermesObject → String
  pub model_validate_json : RecordType → String → Option HermesObject
  pub sha256 : String → String
  pub loads : String → Option Json
  pub ticket_of : Json → Option OrderTicket
  pub leg_of : Json → Option PositionLeg
  pub datetime_of : String → Option AwareDateTime
  pub decimal_of : String → Option Decimal

pub record StoredEvent : Type 0 where
  pub seq : ℕ
  pub record_type : RecordType
  pub record_id : String
  pub idempotency_key : Option String
  pub order_ticket_hash : Option String
  pub created_at : AwareDateTime
  pub recorded_at : AwareDateTime
  pub payload_json : String
  pub payload_sha256 : String

unfoldable pub stored_event_valid : StoredEvent → Bool
stored_event_valid e =
    leb 1 e.seq
    && not (str_eq e.record_id "")
    && not (str_eq e.payload_json "")
    && text_length e.payload_sha256 == 64

pub record OpenOrderRecovery : Type 0 where
  pub logical_key : String
  pub order_ticket_hash : Option String
  pub submit_event_seq : ℕ
  pub has_execution_report : Bool
  pub latest_report_seq : Option ℕ
  pub latest_lifecycle : Option OrderLifecycleState

-- `lifecycle in NON_TERMINAL_LIFECYCLE`
abbrev pub is_non_terminal : OrderLifecycleState → Bool
is_non_terminal OrderLifecycleState.pending_submit = true
is_non_terminal OrderLifecycleState.submitted = true
is_non_terminal OrderLifecycleState.working = true
is_non_terminal OrderLifecycleState.partial_fill = true
is_non_terminal _ = false

unfoldable pub record_type_for : HermesObject → Result StorageError RecordType
record_type_for (gateway_request r) = ok RecordType.gateway_request
record_type_for (validated_trade_intent v) = ok RecordType.validated_trade_intent
record_type_for (order_route_decision d) = ok RecordType.order_route_decision
record_type_for (order_ticket t) = ok RecordType.order_ticket
record_type_for (broker_submit_intent i) = ok RecordType.broker_submit_intent
record_type_for (execution_report r) = ok RecordType.execution_report
record_type_for (position_snapshot s) = ok RecordType.position_snapshot
record_type_for (reconciliation_snapshot r) = ok RecordType.reconciliation_snapshot
record_type_for (human_required_event e) = ok RecordType.human_required_event
record_type_for (kill_switch_state k) = ok RecordType.kill_switch_state
record_type_for (audit_artifact a) = ok RecordType.audit_artifact
record_type_for (daily_report r) = ok RecordType.daily_report
record_type_for (risk_report r) = ok RecordType.risk_report
record_type_for (other name) = err not_persistable

-- `event.record_type in REHYDRATION_REGISTRY`
abbrev pub is_registered : RecordType → Bool
is_registered RecordType.gateway_decision = false
is_registered _ = true

-- `_GATED_REHYDRATORS` has the type.
unfoldable pub is_gated_record_type : RecordType → Bool
is_gated_record_type RecordType.broker_submit_intent = true
is_gated_record_type RecordType.execution_report = true
is_gated_record_type RecordType.position_snapshot = true
is_gated_record_type RecordType.kill_switch_state = true
is_gated_record_type _ = false

module _ (codec : Codec) where
  open codec use {model_dump_json, sha256}

  -- `_content_id`
  abbrev content_id : HermesObject → String
  content_id obj = text_prefix 32 (sha256 (model_dump_json obj))

  unfoldable pub derive_order_ticket_hash : HermesObject → Option String
  derive_order_ticket_hash (broker_submit_intent i) = some i.order_ticket_hash
  derive_order_ticket_hash (execution_report r) = some r.order_ticket_hash
  derive_order_ticket_hash (order_ticket t) = some (sha256 (model_dump_json (order_ticket t)))
  derive_order_ticket_hash _ = none

  -- `text or other`
  abbrev text_or : Option String → String → String
  text_or none t = t
  text_or (some s) t = if str_eq s "" then t else s

  unfoldable pub derive_record_id : HermesObject → String
  unfolding derive_order_ticket_hash
  derive_record_id (broker_submit_intent i) = i.idempotency_key
  derive_record_id (execution_report r) = r.idempotency_key
  derive_record_id (audit_artifact a) = a.artifact_id
  derive_record_id (position_snapshot s) = s.snapshot_id
  derive_record_id (reconciliation_snapshot r) = r.reconciliation_id
  derive_record_id (daily_report r) = r.report_id
  derive_record_id (risk_report r) = r.report_id
  derive_record_id (order_ticket t) =
      text_or (derive_order_ticket_hash (order_ticket t)) (content_id (order_ticket t))
  derive_record_id obj = content_id obj
