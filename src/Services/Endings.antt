-- ===== src/Services/Endings.antt =====
-- services/paper_cycle.py: how an item can end, by the rows that it leaves and the counter that it raises.
use hermes_personal_options.Common.{
  ℕ, suc, Bool, true, false, ◌&&◌, Option, none, some, List, String, Result, ok, err, is_absent,
  ◌≡◌, refl, ap, sym, ◌∙◌, if◌then◌else◌, str_eq, Bool-cases, inl, inr,
}
use hermes_personal_options.Time.{AwareDateTime}
use hermes_personal_options.Decimal.{Decimal}
use hermes_personal_options.Schemas.Enums.{ReasonCode, is_limit}
use hermes_personal_options.Schemas.Model.{construct-eq-ok}
use hermes_personal_options.Schemas.Audit.{AuditArtifact, artifact_valid}
use hermes_personal_options.Schemas.OrderTicket.{OrderTicket}
use hermes_personal_options.Schemas.BrokerSubmission.{BrokerSubmitIntent}
use hermes_personal_options.Brokers.Base.{
  BrokerFill, Failure, broker_error, BrokerErrorKind, audit_artifact_from_broker_error,
}
use hermes_personal_options.Brokers.Fake.{FakeBroker}
use hermes_personal_options.Brokers.Paper.{PaperSubmitApproval}
use hermes_personal_options.Storage.Models.{HermesObject}
use hermes_personal_options.Storage.Backend.{Backend, IsLawful}
use hermes_personal_options.Services.Steps.{
  Memory, Step, ◌>>◌, >>=-answers, >>-answers_both, call-answers, give-answers,
}
use hermes_personal_options.Services.Paper.{
  Outside, LocalPaperBroker, PaperCounters, count_deferred, count_submitted, count_failed,
  count_duplicate, answered,
}
use hermes_personal_options.Services.PaperCycle.{
  audit, audit_artifact, defer, submit, settle, attempt, submit_recorded, submit_confirmed,
  submit_if_confirmed, submit_ticket,
}
use hermes_personal_options.Services.Tally.{Rows, add_object, Adds, artifact-Adds, report-Adds}
use hermes_personal_options.Services.TallySteps.{
  seen, seen_in, audit-seen, attempt-seen, attempt_refused-seen,
}

abbrev pub one_submission : Rows → Rows
one_submission t = record t { submissions = suc t.submissions }

abbrev pub one_report : Rows → Rows
one_report t = record t { reports = suc t.reports }

abbrev pub one_duplicate : Rows → Rows
one_duplicate t = record t { duplicates = suc t.duplicates }

-- The end of an item that the gateway has approved: the rows before and after, the counters before and
-- after.
pub data Ended (s t : Rows) (c d : PaperCounters) : Type 0 where
  deferred : t ≡ s → d ≡ count_deferred c → Ended s t c d
  skipped : t ≡ one_duplicate s → d ≡ count_duplicate c → Ended s t c d
  failed : t ≡ one_submission s → d ≡ count_failed c → Ended s t c d
  reported : t ≡ one_report (one_submission s) → d ≡ count_submitted c → Ended s t c d

answered-store :
    {S : Type 0} (m : Memory S) (r : Result Failure (BrokerFill × FakeBroker))
    → (answered m r).1.store ≡ m.store
answered-store m (ok (fill, b)) = refl
answered-store m (err (broker_error kind reason)) = refl
answered-store m (err f) = refl

broker_artifact-decision :
    (reason : ReasonCode) (detail id : String) (at : AwareDateTime) (a : AuditArtifact)
    → audit_artifact_from_broker_error reason detail id at ≡ ok a
    → str_eq a.decision "PAPER_SUBMIT_DUPLICATE_SKIPPED" ≡ false
unfolding audit_artifact_from_broker_error
broker_artifact-decision reason detail id at a h =
    ap (λ (x : AuditArtifact). str_eq x.decision "PAPER_SUBMIT_DUPLICATE_SKIPPED")
      (sym (construct-eq-ok artifact_valid _ h).1)

pub if-then : {A : Type 0} (test : Bool) (x y : A) → test ≡ true → (if test then x else y) ≡ x
if-then true x y h = refl
if-then false x y h = cc h

pub if-else : {A : Type 0} (test : Bool) (x y : A) → test ≡ false → (if test then x else y) ≡ y
if-else true x y h = cc h
if-else false x y h = refl

module _ (outside : Outside) (B : Backend) (L : IsLawful B) (recorded_at : AwareDateTime)
    (decision_in : String → String)
    (reads : (a : AuditArtifact)
      → decision_in (outside.codec.model_dump_json (HermesObject.audit_artifact a))
        ≡ a.decision) where
  open outside use {codec}

  abbrev rows_of_run : Memory B.State → Rows
  rows_of_run m = seen_in outside B L recorded_at decision_in m

  -- A row that is stored, and what follows.
  pub audit-answers :
      {A : Type 0} (obj : HermesObject) (created_at : AwareDateTime) (rest : Step B.State A)
      (m : Memory B.State) (b : A) (after : Memory B.State)
      → Adds decision_in codec obj
      → (audit outside B recorded_at obj created_at >> rest) m ≡ (ok b, after)
      → (mid : Memory B.State) × (rows_of_run mid ≡ add_object decision_in obj (rows_of_run m))
        × (rest mid ≡ (ok b, after))
  audit-answers obj created_at rest m b after adds h =
      let (u, stored, next) = >>-answers_both _ rest m b after h in
      (
        (audit outside B recorded_at obj created_at m).1,
        audit-seen outside B L recorded_at decision_in obj created_at m _ u adds stored,
        next,
      )

  pub artifact-answers :
      {A : Type 0} (id decision : String) (codes : List ReasonCode) (detail : String)
      (rest : Step B.State A) (m : Memory B.State) (b : A) (after : Memory B.State)
      → (audit_artifact outside B recorded_at id decision codes detail >> rest) m ≡ (ok b, after)
      → (mid : Memory B.State) × (rows_of_run mid ≡ (
          if str_eq decision "PAPER_SUBMIT_DUPLICATE_SKIPPED"
          then one_duplicate (rows_of_run m)
          else rows_of_run m))
        × (rest mid ≡ (ok b, after))
  unfolding audit_artifact
  artifact-answers id decision codes detail rest m b after h =
      let (u, stored, next) = >>-answers_both _ rest m b after h in
      let (a, made, kept) = call-answers _ _ _ m u _ stored in
      let same = (construct-eq-ok artifact_valid _ made).1 in
      (
        (audit_artifact outside B recorded_at id decision codes detail m).1,
        audit-seen outside B L recorded_at decision_in (HermesObject.audit_artifact a) recorded_at m
              _ u (artifact-Adds decision_in codec a (reads a)) kept
            ∙ ap
                (λ (x : AuditArtifact).
                  add_object decision_in (HermesObject.audit_artifact x) (rows_of_run m))
                (sym same),
        next,
      )

  module _ (broker : LocalPaperBroker) (clock : ℕ → AwareDateTime) where
    settle-answers :
        (i : BrokerSubmitIntent) (ordinal : ℕ) (c d : PaperCounters)
        (answer : Result (BrokerErrorKind × ReasonCode) BrokerFill) (m after : Memory B.State)
        (s : Rows)
        → rows_of_run m ≡ one_submission s
        → settle outside B recorded_at broker clock i ordinal c answer m ≡ (ok d, after)
        → Ended s (rows_of_run after) c d
    unfolding settle
    settle-answers i ordinal c d (err (kind, reason)) m after s sent h =
        let (a, made, rest) = call-answers _ _ _ m d after h in
        let (mid, rows, last) =
          audit-answers _ _ _ m d after (artifact-Adds decision_in codec a (reads a)) rest in
        let (counted, same) = give-answers _ mid d after last in
        let other = broker_artifact-decision _ _ _ _ a made in
        failed (ap rows_of_run (sym same) ∙ rows ∙ rw other sent) (sym counted)
    settle-answers i ordinal c d (ok fill) m after s sent h =
        let (report, made, rest) = call-answers _ _ _ m d after h in
        let (mid, rows, last) =
          audit-answers _ _ _ m d after (report-Adds decision_in codec report) rest in
        let (counted, same) = give-answers _ mid d after last in
        reported (ap rows_of_run (sym same) ∙ rows ∙ ap one_report sent) (sym counted)

    submit_recorded-answers :
        (i : BrokerSubmitIntent) (a : PaperSubmitApproval) (ordinal : ℕ) (c d : PaperCounters)
        (put : Bool) (m after : Memory B.State) (s : Rows)
        → rows_of_run m ≡ (if put then one_submission s else s)
        → submit_recorded outside B recorded_at broker clock i a ordinal c put m ≡ (ok d, after)
        → Ended s (rows_of_run after) c d
    unfolding submit_recorded submit
    submit_recorded-answers i a ordinal c d false m after s start h =
        let (mid, rows, last) = artifact-answers _ _ _ _ _ m d after h in
        let (counted, same) = give-answers _ mid d after last in
        skipped (ap rows_of_run (sym same) ∙ rows ∙ ap one_duplicate start) (sym counted)
    submit_recorded-answers i a ordinal c d true m after s start h =
        let (answer, asked, rest) = >>=-answers _ _ m d after h in
        settle-answers i ordinal c d answer _ after s
          (ap (λ x. seen outside.codec B L decision_in x) (answered-store m _) ∙ start) rest

    attempted-rows :
        (i : BrokerSubmitIntent) (m after : Memory B.State) (put : Bool)
        → attempt outside B recorded_at broker clock i m ≡ (ok put, after)
        → rows_of_run after ≡ (if put then one_submission (rows_of_run m) else rows_of_run m)
    attempted-rows i m after true h =
        attempt-seen outside B L recorded_at decision_in broker clock i m after h
    attempted-rows i m after false h =
        attempt_refused-seen outside B L recorded_at decision_in broker clock i m after h

    submit_confirmed-answers :
        (i : BrokerSubmitIntent) (a : PaperSubmitApproval) (ordinal : ℕ) (c d : PaperCounters)
        (m after : Memory B.State)
        → submit_confirmed outside B recorded_at broker clock i a ordinal c m ≡ (ok d, after)
        → Ended (rows_of_run m) (rows_of_run after) c d
    unfolding submit_confirmed
    submit_confirmed-answers i a ordinal c d m after h =
        let (put, tried, rest) =
          >>=-answers (attempt outside B recorded_at broker clock i) _ m d after h in
        submit_recorded-answers i a ordinal c d put _ after (rows_of_run m)
          (attempted-rows i m _ put tried) rest

    module _ (confirmer : BrokerSubmitIntent → Option PaperSubmitApproval)
        (attempt_counter : ℕ) where
      submit_if_confirmed-answers :
          (i : BrokerSubmitIntent) (answer : Option PaperSubmitApproval) (ordinal : ℕ)
          (c d : PaperCounters) (m after : Memory B.State)
          → submit_if_confirmed outside B recorded_at broker clock confirmer attempt_counter i
              answer ordinal c m
            ≡ (ok d, after)
          → Ended (rows_of_run m) (rows_of_run after) c d
      unfolding submit_if_confirmed defer
      submit_if_confirmed-answers i none ordinal c d m after h =
          let (mid, rows, last) = artifact-answers _ _ _ _ _ m d after h in
          let (counted, same) = give-answers _ mid d after last in
          deferred (ap rows_of_run (sym same) ∙ rows) (sym counted)
      submit_if_confirmed-answers i (some a) ordinal c d m after h =
          submit_confirmed-answers i a ordinal c d m after h

      pub submit_ticket-answers :
          (ticket : OrderTicket) (price : Option Decimal) (as_of : AwareDateTime) (ordinal : ℕ)
          (c d : PaperCounters) (m after : Memory B.State)
          → submit_ticket outside B recorded_at broker clock confirmer attempt_counter ticket price
              as_of ordinal c m
            ≡ (ok d, after)
          → Ended (rows_of_run m) (rows_of_run after) c d
      unfolding submit_ticket defer
      submit_ticket-answers ticket price as_of ordinal c d m after h =
          elim (Bool-cases (is_limit ticket.order_type && is_absent price)) [
            | inl unpriced ↦
                let (mid, rows, last) = artifact-answers _ _ _ _ _ m d after (
                  ap (λ (step : Step B.State PaperCounters). step m) (sym (if-then _ _ _ unpriced))
                  ∙ h) in
                let (counted, same) = give-answers _ mid d after last in
                deferred (ap rows_of_run (sym same) ∙ rows) (sym counted)
            | inr priced ↦
                let (i, minted, rest) = call-answers _ _ _ m d after (
                  ap (λ (step : Step B.State PaperCounters). step m) (sym (if-else _ _ _ priced))
                  ∙ h) in
                submit_if_confirmed-answers i (confirmer i) ordinal c d m after rest
          ]
