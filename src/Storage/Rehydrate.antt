-- ===== src/Storage/Rehydrate.antt =====
-- storage/models.py: what gives a typed object back from the payload of a row. Each object runs its
-- checks again.
use hermes_personal_options.Common.{
  ℕ, Bool, true, false, not, ◌&&◌, Option, none, some, List, [], ◌∷◌, String, Result, ok, err,
  ◌>>=◌, ◌>>◌, raise_if, str_eq,
}
use hermes_personal_options.Common.Int.{pos}
use hermes_personal_options.Decimal.{Decimal}
use hermes_personal_options.Time.{AwareDateTime}
use hermes_personal_options.Schemas.EnumText.{
  lifecycle_of, order_type_of, submit_mode_of, rearm_mode_of, emergency_state_of, reason_of,
  snapshot_source_of,
}
use hermes_personal_options.Schemas.OrderTicket.{OrderTicket}
use hermes_personal_options.Schemas.BrokerSubmission.{
  BrokerSubmitIntent, submit_intent_valid, ExecutionReport, execution_report_valid,
}
use hermes_personal_options.Schemas.PositionState.{PositionSnapshot, position_snapshot_valid}
use hermes_personal_options.Schemas.KillSwitch.{KillSwitchState, kill_switch_valid}
use hermes_personal_options.Storage.Json.{
  Json, null, boolean, integer, real, text, list, JsonItems, nil, item, get_field,
}
use hermes_personal_options.Storage.Models.{
  StorageError, unrehydratable_record, unverified_provenance, payload_integrity, invalid_object,
  RecordType, HermesObject, broker_submit_intent, execution_report, position_snapshot,
  kill_switch_state, order_ticket, Codec, StoredEvent, is_registered, is_gated_record_type,
}

-- What is not there, or not of the type that is asked for, is an error.
abbrev or_invalid {ℓ} : {A : Type ℓ} → Option A → Result StorageError A
or_invalid none = err invalid_object
or_invalid (some a) = ok a

-- A model that its checks accept.
abbrev pub accepted {ℓ} : {A : Type ℓ} → (A → Bool) → A → Result StorageError A
accepted valid a = elim (valid a) [ true ↦ ok a | false ↦ err invalid_object ]

abbrev as_text : Json → Option String
as_text (text t) = some t
as_text _ = none

abbrev as_bool : Json → Option Bool
as_bool (boolean b) = some b
as_bool _ = none

abbrev as_count : Json → Option ℕ
as_count (integer (pos n)) = some n
as_count _ = none

-- None stays None, and a text is read.
abbrev pub or_none {ℓ} : {A : Type ℓ} → (String → Option A) → Json → Result StorageError (Option A)
or_none read null = ok none
or_none read (text t) = or_invalid (read t) >>= λ a. ok (some a)
or_none read _ = err invalid_object

-- `Decimal(str(value))` of a number in the payload.
abbrev decimal_or_none : (String → Option Decimal) → Json → Result StorageError (Option Decimal)
decimal_or_none read (integer n) = ok (some (record { coefficient = n; exponent = pos 0 }))
decimal_or_none read (real r) = or_invalid (read r) >>= λ a. ok (some a)
decimal_or_none read null = ok none
decimal_or_none read (text t) = or_invalid (read t) >>= λ a. ok (some a)
decimal_or_none read _ = err invalid_object

abbrev datetime_or_none :
    (String → Option AwareDateTime) → Json → Result StorageError (Option AwareDateTime)
datetime_or_none = or_none

module _ (codec : Codec) where
  open codec use {
    model_dump_json, model_validate_json, sha256, loads, ticket_of, leg_of, datetime_of, decimal_of,
  }

  abbrev need : Json → String → Result StorageError Json
  need d name = or_invalid (get_field d name)

  abbrev need_text : Json → String → Result StorageError String
  need_text d name = need d name >>= λ j. or_invalid (as_text j)

  abbrev need_count : Json → String → Result StorageError ℕ
  need_count d name = need d name >>= λ j. or_invalid (as_count j)

  abbrev need_time : Json → String → Result StorageError AwareDateTime
  need_time d name = need_text d name >>= λ t. or_invalid (datetime_of t)

  abbrev need_member {ℓ} :
      {A : Type ℓ} → (String → Option A) → Json → String → Result StorageError A
  need_member member d name = need_text d name >>= λ t. or_invalid (member t)

  -- SHA-256(ticket)
  abbrev ticket_digest : OrderTicket → String
  ticket_digest t = sha256 (model_dump_json (order_ticket t))

  -- `_rehydrate_broker_submit_intent`
  unfoldable pub rehydrate_submit_intent : Json → Result StorageError BrokerSubmitIntent
  rehydrate_submit_intent d = do
    j ← need d "ticket"
    ticket ← or_invalid (ticket_of j)
    hash ← need_text d "order_ticket_hash"
    key ← need_text d "idempotency_key"
    counter ← need_count d "attempt_counter"
    mode ← need_member submit_mode_of d "submit_mode"
    submitted ← need_time d "submitted_at"
    p ← need d "limit_price"
    price ← decimal_or_none decimal_of p
    accepted (submit_intent_valid ticket_digest) (record {
      ticket = ticket;
      order_ticket_hash = hash;
      idempotency_key = key;
      attempt_counter = counter;
      submit_mode = mode;
      submitted_at = submitted;
      limit_price = price;
    })

  -- `_rehydrate_execution_report`
  unfoldable pub rehydrate_execution_report : Json → Result StorageError ExecutionReport
  rehydrate_execution_report d = do
    hash ← need_text d "order_ticket_hash"
    key ← need_text d "idempotency_key"
    id ← need_text d "broker_order_id"
    state ← need_member lifecycle_of d "lifecycle_state"
    kind ← need_member order_type_of d "order_type"
    filled ← need_count d "filled_contracts"
    requested ← need_count d "requested_contracts"
    p ← need d "avg_fill_price"
    price ← decimal_or_none decimal_of p
    f ← need d "fill_timestamp"
    fill_time ← datetime_or_none datetime_of f
    submitted ← need_time d "submitted_at"
    e ← need d "completed_at"
    completed ← datetime_or_none datetime_of e
    accepted execution_report_valid (record {
      order_ticket_hash = hash;
      idempotency_key = key;
      broker_order_id = id;
      lifecycle_state = state;
      order_type = kind;
      filled_contracts = filled;
      requested_contracts = requested;
      avg_fill_price = price;
      fill_timestamp = fill_time;
      submitted_at = submitted;
      completed_at = completed;
    })

  -- `_rehydrate_kill_switch_state`
  unfoldable pub rehydrate_kill_switch : Json → Result StorageError KillSwitchState
  rehydrate_kill_switch d = do
    h ← need d "halted"
    halted ← or_invalid (as_bool h)
    r ← need d "reason_code"
    reason ← or_none reason_of r
    m ← need d "rearm_mode"
    mode ← or_none rearm_mode_of m
    id ← need_text d "command_id"
    created ← need_time d "created_at"
    note ← need_text d "note"
    accepted kill_switch_valid (record {
      halted = halted;
      reason_code = reason;
      rearm_mode = mode;
      command_id = id;
      created_at = created;
      note = note;
    })

  -- The elements of a list, read one after the other.
  abbrev read_items {ℓ} :
      {A : Type ℓ} → (Json → Option A) → JsonItems → Result StorageError (List A)
  read_items read nil = ok []
  read_items read (item j rest) =
      or_invalid (read j) >>= λ a. read_items read rest >>= λ as_read. ok (a ∷ as_read)

  abbrev need_list {ℓ} : {A : Type ℓ} → (Json → Option A) → Json → Result StorageError (List A)
  need_list read (list items) = read_items read items
  need_list read _ = err invalid_object

  abbrev optional_text : Json → Result StorageError (Option String)
  optional_text = or_none some

  -- `_rehydrate_position_snapshot`
  unfoldable pub rehydrate_position_snapshot : Json → Result StorageError PositionSnapshot
  rehydrate_position_snapshot d = do
    l ← need d "legs"
    legs ← need_list leg_of l
    id ← need_text d "snapshot_id"
    source ← need_member snapshot_source_of d "source"
    source_id ← need_text d "source_id"
    created ← need_time d "created_at"
    at ← need_time d "as_of"
    r ← need d "execution_report_ids"
    reports ← need_list as_text r
    b ← need d "broker_name"
    broker ← optional_text b
    state ← need_member emergency_state_of d "emergency_state"
    accepted position_snapshot_valid (record {
      snapshot_id = id;
      source = source;
      source_id = source_id;
      created_at = created;
      as_of = at;
      legs = legs;
      execution_report_ids = reports;
      broker_name = broker;
      emergency_state = state;
    })

  abbrev as_object {ℓ} :
      {A : Type ℓ} → (A → HermesObject) → Result StorageError A → Result StorageError HermesObject
  as_object wrap made = made >>= λ a. ok (wrap a)

  -- The rehydrator of a gated type; the others are read by pydantic.
  unfoldable pub rebuild : RecordType → String → Result StorageError HermesObject
  rebuild RecordType.broker_submit_intent payload =
      or_invalid (loads payload) >>= λ d. as_object broker_submit_intent (rehydrate_submit_intent d)
  rebuild RecordType.execution_report payload =
      or_invalid (loads payload) >>= λ d. as_object execution_report (rehydrate_execution_report d)
  rebuild RecordType.kill_switch_state payload =
      or_invalid (loads payload) >>= λ d. as_object kill_switch_state (rehydrate_kill_switch d)
  rebuild RecordType.position_snapshot payload = or_invalid (loads payload) >>= λ d.
      as_object position_snapshot (rehydrate_position_snapshot d)
  rebuild t payload = or_invalid (model_validate_json t payload)

  unfoldable pub rehydrate_payload : StoredEvent → Bool → Result StorageError HermesObject
  rehydrate_payload e allow_gated = do
    raise_if (not (str_eq (sha256 e.payload_json) e.payload_sha256)) payload_integrity
    raise_if (not (is_registered e.record_type)) unrehydratable_record
    raise_if (is_gated_record_type e.record_type && not allow_gated) unverified_provenance
    rebuild e.record_type e.payload_json

  -- `rehydrate`, of a row of any origin
  unfoldable pub rehydrate_free : StoredEvent → Result StorageError HermesObject
  unfolding rehydrate_payload
  rehydrate_free e = rehydrate_payload e false
