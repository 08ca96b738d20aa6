-- ===== src/Examples/Store.antt =====
-- The audit store on a submission, its report and a state of the switch.
use hermes_personal_options.Common.{
  ℕ, ◌≡◌, refl, ◌⊎◌, ok, true, false, none, some, List, [], ◌∷◌, Option, All, String, str_eq, is_ok,
  if◌then◌else◌,
}
use hermes_personal_options.Time.{AwareDateTime, instant}
use hermes_personal_options.Schemas.Enums.{operator_halt_command, human_only}
use hermes_personal_options.Schemas.KillSwitch.{KillSwitchState, kill_switch_valid}
use hermes_personal_options.Storage.Json.{Json, object, end, field, text, has_secret, is_secret_key}
use hermes_personal_options.Storage.Models.{
  Codec, HermesObject, broker_submit_intent, execution_report, kill_switch_state, RecordType,
  StoredEvent, OpenOrderRecovery, record_type_for, derive_record_id, derive_order_ticket_hash,
  stored_event_valid, is_gated_record_type,
}
use hermes_personal_options.Storage.Rehydrate.{rebuild, rehydrate_kill_switch, rehydrate_payload}
use hermes_personal_options.Storage.Sqlite.{
  sqlite_store, sqlite_store-IsLawful, insert_row, rows_of, row_by_key, row_by_seq,
}
use hermes_personal_options.Storage.Base.{
  append, row_for, assert_no_secrets, record_submit_attempt, rehydrate, unresolved_open_orders,
  unreported, same_event, assert_provenance,
}
use hermes_personal_options.Storage.Later.{
  Later, now, appending, well_formed, Later-well_formed, Later-keeps,
}
use hermes_personal_options.Storage.Attempts.{record_submit_attempt-once}
use hermes_personal_options.Storage.Provenance.{rehydrate-stored}
use hermes_personal_options.Storage.Recovery.{unresolved_open_orders-exact, Settled, listed}
use hermes_personal_options.Common.Text.{show_ℕ}
use hermes_personal_options.Storage.SwitchJson.{
  switch_json, rehydrate_kill_switch-json, rehydrate-switch,
}
use hermes_personal_options.Examples.Data.{
  half_past_ten, seconds_later, hash_of_ticket, put_ticket, put_submission,
}

abbrev halt_state : KillSwitchState
halt_state = record {
  halted = true;
  reason_code = some operator_halt_command;
  rearm_mode = some human_only;
  command_id = "halt-new-entries:0:20260105T103000000000";
  created_at = half_past_ten;
  note = "";
}

abbrev isoformat : AwareDateTime → String
isoformat t = "2026-01-05T10:30:00+00:00"

-- The texts of objects, and what they stand for; an artifact is its decision here.
abbrev dump : HermesObject → String
dump (kill_switch_state k) = "switch"
dump (execution_report r) = "report"
dump (HermesObject.audit_artifact a) = a.decision
dump _ = "submission"

abbrev load : String → Option Json
load t =
    if str_eq t "switch"
    then some (switch_json isoformat halt_state)
    else some (object (field "lifecycle_state" (text "FILLED") end))

abbrev pub codec : Codec
codec = record {
  model_dump_json = dump;
  model_validate_json = λ t s. none;
  sha256 = λ s. hash_of_ticket put_ticket;
  loads = load;
  ticket_of = λ j. none;
  leg_of = λ j. none;
  datetime_of = λ s. some half_past_ten;
  decimal_of = λ s. none;
}

abbrev first_submission : HermesObject
first_submission = broker_submit_intent (put_submission 1)

abbrev submitted : List StoredEvent
submitted = (record_submit_attempt codec sqlite_store [] (put_submission 1) (seconds_later 11)).1

abbrev switched : List StoredEvent
switched =
    (append codec sqlite_store submitted (kill_switch_state halt_state) half_past_ten
      (seconds_later 12) none).1

to_submitted : Later codec sqlite_store sqlite_store-IsLawful [] submitted
unfolding record_submit_attempt
to_submitted =
    appending first_submission (put_submission 1).submitted_at (seconds_later 11)
      (some (put_submission 1).idempotency_key) now refl

to_switched : Later codec sqlite_store sqlite_store-IsLawful submitted switched
to_switched =
    appending (kill_switch_state halt_state) half_past_ten (seconds_later 12) none now refl

Later-well_formed_example : well_formed codec submitted ≡ true
Later-well_formed_example =
    Later-well_formed codec sqlite_store sqlite_store-IsLawful [] refl to_submitted

rehydrate_kill_switch-json_example :
    rehydrate_kill_switch codec (switch_json isoformat halt_state) ≡ ok halt_state
unfolding kill_switch_valid
rehydrate_kill_switch-json_example = rehydrate_kill_switch-json codec isoformat halt_state refl refl

abbrev halt_row : StoredEvent
halt_row = record {
  seq = 2;
  record_type = RecordType.kill_switch_state;
  record_id = "0123456789abcdef0123456789abcdef";
  idempotency_key = none;
  order_ticket_hash = none;
  created_at = half_past_ten;
  recorded_at = seconds_later 12;
  payload_json = "switch";
  payload_sha256 = hash_of_ticket put_ticket;
}

appended :
    append codec sqlite_store submitted
      (kill_switch_state halt_state)
      half_past_ten
      (seconds_later 12)
      none
    ≡ (ok halt_row, switched)
unfolding append row_for record_submit_attempt record_type_for assert_no_secrets has_secret
    is_secret_key derive_record_id derive_order_ticket_hash stored_event_valid insert_row
appended = refl

Later-keeps_example :
    ((n : ℕ) (e : StoredEvent) → row_by_seq submitted n ≡ some e → row_by_seq switched n ≡ some e)
    × ((k : String) (e : StoredEvent)
        → row_by_key submitted k ≡ some e
        → row_by_key switched k ≡ some e)
Later-keeps_example = Later-keeps codec sqlite_store sqlite_store-IsLawful submitted to_switched

abbrev attempt_row : StoredEvent
attempt_row = record {
  seq = 1;
  record_type = RecordType.broker_submit_intent;
  record_id = (put_submission 1).idempotency_key;
  idempotency_key = some (put_submission 1).idempotency_key;
  order_ticket_hash = some (hash_of_ticket put_ticket);
  created_at = (put_submission 1).submitted_at;
  recorded_at = seconds_later 11;
  payload_json = "submission";
  payload_sha256 = hash_of_ticket put_ticket;
}

recorded :
    record_submit_attempt codec sqlite_store [] (put_submission 1) (seconds_later 11)
    ≡ (ok attempt_row, submitted)
unfolding append row_for record_submit_attempt record_type_for assert_no_secrets has_secret
    is_secret_key derive_record_id derive_order_ticket_hash stored_event_valid insert_row show_ℕ
recorded = refl

record_submit_attempt-once_example :
    (row_by_key switched (put_submission 1).idempotency_key ≡ some attempt_row)
    × ((record_submit_attempt codec sqlite_store switched (put_submission 1) (seconds_later 30)).1
        ≡ switched)
    × (is_ok
          (record_submit_attempt codec sqlite_store switched
            (put_submission 1)
            (seconds_later 30)).0
        ≡ false)
record_submit_attempt-once_example =
    record_submit_attempt-once codec sqlite_store sqlite_store-IsLawful [] submitted
      (put_submission 1) (put_submission 1) (seconds_later 11) (seconds_later 30) attempt_row
      recorded to_switched refl

rehydrate-switch_example :
    rehydrate codec sqlite_store switched halt_row ≡ ok (kill_switch_state halt_state)
unfolding kill_switch_valid
rehydrate-switch_example =
    rehydrate-switch codec sqlite_store sqlite_store-IsLawful isoformat [] submitted switched
      switched halt_state half_past_ten (seconds_later 12) none halt_row refl to_submitted appended
      now refl refl refl

halt_back : rehydrate codec sqlite_store switched halt_row ≡ ok (kill_switch_state halt_state)
unfolding rehydrate assert_provenance rehydrate_payload rebuild rehydrate_kill_switch
    kill_switch_valid same_event row_by_seq append row_for record_type_for assert_no_secrets
    has_secret is_secret_key insert_row record_submit_attempt derive_record_id instant
    is_gated_record_type
halt_back = refl

rehydrate-stored_example :
    ((stored : StoredEvent) × (row_by_seq switched 2 ≡ some stored)
      × (same_event stored halt_row ≡ true))
    × (hash_of_ticket put_ticket ≡ hash_of_ticket put_ticket)
    × (rebuild codec RecordType.kill_switch_state "switch" ≡ ok (kill_switch_state halt_state))
rehydrate-stored_example =
    rehydrate-stored codec sqlite_store sqlite_store-IsLawful switched halt_row
      (kill_switch_state halt_state) halt_back

-- The submission has no report: it is listed.
open_orders : List OpenOrderRecovery
open_orders = unreported codec attempt_row ∷ []

found_open : unresolved_open_orders codec sqlite_store submitted ≡ ok open_orders
unfolding open_orders append row_for record_submit_attempt record_type_for assert_no_secrets
    has_secret is_secret_key derive_record_id derive_order_ticket_hash stored_event_valid insert_row
    rows_of show_ℕ unresolved_open_orders
found_open = refl

unresolved_open_orders-exact_example :
    All
      (λ (submit : StoredEvent).
        (listed codec submit.seq open_orders ≡ true)
        ⊎ Settled codec submit.record_id (rows_of submitted RecordType.execution_report))
      (rows_of submitted RecordType.broker_submit_intent)
    × All
        (λ (f : OpenOrderRecovery).
          ¬ Settled codec f.logical_key (rows_of submitted RecordType.execution_report))
        open_orders
unresolved_open_orders-exact_example =
    unresolved_open_orders-exact codec sqlite_store submitted open_orders found_open
