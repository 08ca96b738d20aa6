-- ===== src/Services/Tally.antt =====
-- services/paper_cycle.py: what a run leaves in the store, counted by the kind of row.
use hermes_personal_options.Common.{
  ℕ, suc, ◌+◌, Bool, true, false, ◌&&◌, List, [], ◌∷◌, ◌++◌, String, Result, ok, ok-injective,
  str_eq, if◌then◌else◌, ◌≡◌, refl, ap, sym, ◌∙◌, arith, Bool-cases, inl, inr,
}
use hermes_personal_options.Schemas.Audit.{AuditArtifact}
use hermes_personal_options.Schemas.TradeIntent.{ValidatedTradeIntent}
use hermes_personal_options.Schemas.OrderTicket.{OrderTicket}
use hermes_personal_options.Schemas.BrokerSubmission.{BrokerSubmitIntent, ExecutionReport}
use hermes_personal_options.Gateway.Request.{GatewayRequest}
use hermes_personal_options.Storage.Models.{
  StorageError, RecordType, HermesObject, Codec, StoredEvent, record_type_for,
}
use hermes_personal_options.Storage.Backend.{of_type}

-- How many rows there are of each kind.
pub record Rows : Type 0 where
  pub requests : ℕ
  pub validated : ℕ
  pub submissions : ℕ
  pub reports : ℕ
  pub duplicates : ℕ

abbrev pub one_if : Bool → ℕ
one_if true = 1
one_if false = 0

abbrev pub count : (StoredEvent → Bool) → List StoredEvent → ℕ
count p [] = 0
count p (e ∷ rows) = one_if (p e) + count p rows

count-append :
    (p : StoredEvent → Bool) (rows : List StoredEvent) (e : StoredEvent)
    → count p (rows ++ e ∷ []) ≡ count p rows + one_if (p e)
count-append p [] e = omega arith
count-append p (x ∷ rows) e = omega (arith, count-append p rows e)

-- `decision_in` reads the decision of an artifact in its JSON text.
module _ (decision_in : String → String) where
  -- The artifact of an attempt that was refused as a duplicate.
  abbrev pub is_duplicate : StoredEvent → Bool
  is_duplicate e =
      of_type RecordType.audit_artifact e
      && str_eq (decision_in e.payload_json) "PAPER_SUBMIT_DUPLICATE_SKIPPED"

  abbrev pub tally : List StoredEvent → Rows
  tally rows = record {
    requests = count (of_type RecordType.gateway_request) rows;
    validated = count (of_type RecordType.validated_trade_intent) rows;
    submissions = count (of_type RecordType.broker_submit_intent) rows;
    reports = count (of_type RecordType.execution_report) rows;
    duplicates = count is_duplicate rows;
  }

  abbrev pub add_row : StoredEvent → Rows → Rows
  add_row e t = record {
    requests = t.requests + one_if (of_type RecordType.gateway_request e);
    validated = t.validated + one_if (of_type RecordType.validated_trade_intent e);
    submissions = t.submissions + one_if (of_type RecordType.broker_submit_intent e);
    reports = t.reports + one_if (of_type RecordType.execution_report e);
    duplicates = t.duplicates + one_if (is_duplicate e);
  }

  pub tally-append :
      (rows : List StoredEvent) (e : StoredEvent) → tally (rows ++ e ∷ []) ≡ add_row e (tally rows)
  tally-append rows e = rw (count-append (of_type RecordType.gateway_request) rows e) (
      rw (count-append (of_type RecordType.validated_trade_intent) rows e) (
        rw (count-append (of_type RecordType.broker_submit_intent) rows e) (
          rw (count-append (of_type RecordType.execution_report) rows e)
            (rw (count-append is_duplicate rows e) refl))))

  -- The rows with one more for an object.
  abbrev pub add_object : HermesObject → Rows → Rows
  add_object (HermesObject.gateway_request r) t = record t { requests = suc t.requests }
  add_object (HermesObject.validated_trade_intent v) t = record t { validated = suc t.validated }
  add_object (HermesObject.broker_submit_intent i) t = record t { submissions = suc t.submissions }
  add_object (HermesObject.execution_report r) t = record t { reports = suc t.reports }
  add_object (HermesObject.audit_artifact a) t =
      if str_eq a.decision "PAPER_SUBMIT_DUPLICATE_SKIPPED"
      then record t { duplicates = suc t.duplicates }
      else t
  add_object _ t = t

  Rows-same :
      (s t : Rows)
      → s.requests ≡ t.requests
      → s.validated ≡ t.validated
      → s.submissions ≡ t.submissions
      → s.reports ≡ t.reports
      → s.duplicates ≡ t.duplicates
      → s ≡ t
  Rows-same s t a b c d e = λ i. record {
    requests = a i;
    validated = b i;
    submissions = c i;
    reports = d i;
    duplicates = e i;
  }

  of_record_type :
      (u : RecordType) (e : StoredEvent) (t later : Rows)
      → ◌≡◌ {A = Result StorageError RecordType} (ok u) (ok e.record_type)
      → add_row (record e { record_type = u }) t ≡ later
      → add_row e t ≡ later
  of_record_type u e t later typed same =
      ap (λ x. add_row (record e { record_type = x }) t) (sym (ok-injective typed)) ∙ same

  module _ (codec : Codec) where
    open codec use {model_dump_json}

    -- The row of an object adds that object.
    abbrev pub Adds : HermesObject → Type 0
    Adds obj =
        (t : Rows) (e : StoredEvent)
        → record_type_for obj ≡ ok e.record_type
        → model_dump_json obj ≡ e.payload_json
        → add_row e t ≡ add_object obj t

    pub request-Adds : (x : GatewayRequest) → Adds (HermesObject.gateway_request x)
    unfolding record_type_for
    request-Adds x t e typed payload =
        of_record_type RecordType.gateway_request e t _ typed
          (Rows-same _ _ (omega arith) (omega arith) (omega arith) (omega arith) (omega arith))

    pub validated-Adds : (x : ValidatedTradeIntent) → Adds (HermesObject.validated_trade_intent x)
    unfolding record_type_for
    validated-Adds x t e typed payload =
        of_record_type RecordType.validated_trade_intent e t _ typed
          (Rows-same _ _ (omega arith) (omega arith) (omega arith) (omega arith) (omega arith))

    pub ticket-Adds : (x : OrderTicket) → Adds (HermesObject.order_ticket x)
    unfolding record_type_for
    ticket-Adds x t e typed payload =
        of_record_type RecordType.order_ticket e t _ typed
          (Rows-same _ _ (omega arith) (omega arith) (omega arith) (omega arith) (omega arith))

    pub submission-Adds : (x : BrokerSubmitIntent) → Adds (HermesObject.broker_submit_intent x)
    unfolding record_type_for
    submission-Adds x t e typed payload =
        of_record_type RecordType.broker_submit_intent e t _ typed
          (Rows-same _ _ (omega arith) (omega arith) (omega arith) (omega arith) (omega arith))

    pub report-Adds : (x : ExecutionReport) → Adds (HermesObject.execution_report x)
    unfolding record_type_for
    report-Adds x t e typed payload =
        of_record_type RecordType.execution_report e t _ typed
          (Rows-same _ _ (omega arith) (omega arith) (omega arith) (omega arith) (omega arith))

    pub artifact-Adds :
        (a : AuditArtifact)
        → decision_in (model_dump_json (HermesObject.audit_artifact a)) ≡ a.decision
        → Adds (HermesObject.audit_artifact a)
    unfolding record_type_for
    artifact-Adds a read t e typed payload = of_record_type RecordType.audit_artifact e t _ typed (
        rw (ap decision_in (sym payload) ∙ read)
          (elim (Bool-cases (str_eq a.decision "PAPER_SUBMIT_DUPLICATE_SKIPPED")) [
            | inl duplicate ↦ rw duplicate (
                Rows-same _ _ (omega arith) (omega arith) (omega arith) (omega arith) (omega arith))
            | inr other ↦ rw other (
                Rows-same _ _ (omega arith) (omega arith) (omega arith) (omega arith) (omega arith))
          ]))
