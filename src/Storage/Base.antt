-- ===== src/Storage/Base.antt =====
-- storage/base.py: the policy of the audit store, over the primitives of any backend.
use hermes_personal_options.Common.{
  ℕ, Bool, true, false, not, ◌&&◌, Option, none, some, List, [], ◌∷◌, ◌++◌, String, Result, ok, err,
  ◌>>=◌, ◌>>◌, raise_if, str_eq, is_absent, ◌==◌, if◌then◌else◌,
}
use hermes_personal_options.Time.{AwareDateTime, same_instant}
use hermes_personal_options.Schemas.Enums.{OrderLifecycleState}
use hermes_personal_options.Schemas.EnumText.{lifecycle_of}
use hermes_personal_options.Schemas.BrokerSubmission.{BrokerSubmitIntent}
use hermes_personal_options.Storage.Json.{text, has_secret, get_field}
use hermes_personal_options.Storage.Models.{
  StorageError, key_reserved, secret_persistence, invalid_object, unverified_provenance, RecordType,
  same_type, HermesObject, broker_submit_intent, Codec, StoredEvent, stored_event_valid,
  OpenOrderRecovery, is_non_terminal, record_type_for, derive_record_id, derive_order_ticket_hash,
}
use hermes_personal_options.Storage.Rehydrate.{rehydrate_payload}
use hermes_personal_options.Storage.Backend.{NewRow, event_of, Backend}

-- Equality of two optional texts.
abbrev pub same_optional : Option String → Option String → Bool
same_optional none none = true
same_optional none (some t) = false
same_optional (some s) none = false
same_optional (some s) (some t) = str_eq s t

-- `stored == event`: the fields are equal, and datetimes are equal if they name one instant.
unfoldable pub same_event : StoredEvent → StoredEvent → Bool
same_event a b =
    a.seq == b.seq
    && same_type a.record_type b.record_type
    && str_eq a.record_id b.record_id
    && same_optional a.idempotency_key b.idempotency_key
    && same_optional a.order_ticket_hash b.order_ticket_hash
    && same_instant a.created_at b.created_at
    && same_instant a.recorded_at b.recorded_at
    && str_eq a.payload_json b.payload_json
    && str_eq a.payload_sha256 b.payload_sha256

-- The last report of each logical key, by its record id.
abbrev pub latest_of : String → Option StoredEvent → List StoredEvent → Option StoredEvent
latest_of key found [] = found
latest_of key found (e ∷ reports) =
    latest_of key (if str_eq e.record_id key then some e else found) reports

module _ (codec : Codec) where
  open codec use {model_dump_json, sha256, loads}

  -- `_assert_no_secrets`
  unfoldable pub assert_no_secrets : String → Result StorageError (Unit {0})
  assert_no_secrets payload = elim (loads payload) [
    | none ↦ err invalid_object
    | some j ↦ raise_if (has_secret j) secret_persistence
  ]

  -- `_lifecycle_from_payload`
  unfoldable pub lifecycle_from_payload : String → Result StorageError OrderLifecycleState
  lifecycle_from_payload payload = elim (loads payload) [
    | none ↦ err invalid_object
    | some j ↦ elim (get_field j "lifecycle_state") [
      | some (text t) ↦ elim (lifecycle_of t) [ some l ↦ ok l | none ↦ err invalid_object ]
      | _ ↦ err invalid_object
    ]
  ]

  -- What `append` hands to the backend, or its error.
  unfoldable pub row_for :
      HermesObject → AwareDateTime → AwareDateTime → Option String → Result StorageError NewRow
  row_for obj created_at recorded_at key = do
    t ← record_type_for obj
    raise_if (not (is_absent key) && not (same_type t RecordType.broker_submit_intent)) key_reserved
    assert_no_secrets (model_dump_json obj)
    ok (record {
      record_type = t;
      record_id = derive_record_id codec obj;
      idempotency_key = key;
      order_ticket_hash = derive_order_ticket_hash codec obj;
      created_at = created_at;
      recorded_at = recorded_at;
      payload_json = model_dump_json obj;
      payload_sha256 = sha256 (model_dump_json obj);
    })

  -- The event that is handed back is a model of its own.
  abbrev pub returned : NewRow → Result StorageError ℕ → Result StorageError StoredEvent
  returned r (err e) = err e
  returned r (ok seq) =
      if stored_event_valid (event_of seq r) then ok (event_of seq r) else err invalid_object

  -- What is found of a submit attempt without a report, and of one with an open report.
  abbrev pub unreported : StoredEvent → OpenOrderRecovery
  unreported submit = record {
    logical_key = submit.record_id;
    order_ticket_hash = submit.order_ticket_hash;
    submit_event_seq = submit.seq;
    has_execution_report = false;
    latest_report_seq = none;
    latest_lifecycle = none;
  }

  abbrev pub still_open : StoredEvent → StoredEvent → OrderLifecycleState → OpenOrderRecovery
  still_open submit report state = record {
    logical_key = submit.record_id;
    order_ticket_hash = submit.order_ticket_hash;
    submit_event_seq = submit.seq;
    has_execution_report = true;
    latest_report_seq = some report.seq;
    latest_lifecycle = some state;
  }

  -- The finding of one submit attempt, if it is unresolved.
  abbrev pub finding :
      StoredEvent → Option StoredEvent → Result StorageError (List OpenOrderRecovery)
  finding submit none = ok (unreported submit ∷ [])
  finding submit (some report) = lifecycle_from_payload report.payload_json >>= λ state.
      ok (if is_non_terminal state then still_open submit report state ∷ [] else [])

  abbrev pub findings :
      List StoredEvent → List StoredEvent → Result StorageError (List OpenOrderRecovery)
  findings reports [] = ok []
  findings reports (submit ∷ submits) =
      finding submit (latest_of submit.record_id none reports) >>= λ found.
      findings reports submits >>= λ others. ok (found ++ others)

  module _ (B : Backend) where
    open B use {State, insert, iter_events_of, get_by_seq}

    abbrev pub put_row :
        State → Result StorageError NewRow → Result StorageError StoredEvent × State
    put_row s (err e) = (err e, s)
    put_row s (ok r) = (returned r (insert s r).0, (insert s r).1)

    -- The times are aware by their type. The source takes a naive one too: it inserts the row, and raises
    -- where it makes the event of it.
    unfoldable pub append :
        State
        → HermesObject
        → AwareDateTime
        → AwareDateTime
        → Option String
        → Result StorageError StoredEvent × State
    append s obj created_at recorded_at key = put_row s (row_for obj created_at recorded_at key)

    unfoldable pub record_submit_attempt :
        State → BrokerSubmitIntent → AwareDateTime → Result StorageError StoredEvent × State
    unfolding append
    record_submit_attempt s intent recorded_at =
        append s (broker_submit_intent intent) intent.submitted_at recorded_at
          (some intent.idempotency_key)

    -- `_assert_provenance`
    unfoldable pub assert_provenance : State → StoredEvent → Result StorageError (Unit {0})
    assert_provenance s e = elim (get_by_seq s e.seq) [
      | none ↦ err unverified_provenance
      | some stored ↦ raise_if (not (same_event stored e)) unverified_provenance
    ]

    unfoldable pub rehydrate : State → StoredEvent → Result StorageError HermesObject
    rehydrate s e = assert_provenance s e >> rehydrate_payload codec e true

    unfoldable pub unresolved_open_orders : State → Result StorageError (List OpenOrderRecovery)
    unresolved_open_orders s =
        findings (iter_events_of s RecordType.execution_report)
          (iter_events_of s RecordType.broker_submit_intent)
