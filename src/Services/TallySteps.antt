-- ===== src/Services/TallySteps.antt =====
-- services/paper_cycle.py: the row that each call of a run adds, where the call answers.
use hermes_personal_options.Common.{
  ℕ, suc, Bool, true, false, String, Result, ok, err, ◌≡◌, refl, ap, sym, ◌∙◌, Option, none, some,
  length, Bool-cases, inl, inr, if◌then◌else◌,
}
use hermes_personal_options.Time.{AwareDateTime}
use hermes_personal_options.Schemas.BrokerSubmission.{BrokerSubmitIntent}
use hermes_personal_options.Storage.Models.{
  StorageError, duplicate_idempotency_key, HermesObject, Codec, StoredEvent,
}
use hermes_personal_options.Storage.Backend.{Backend, IsLawful, NewRow, key_taken}
use hermes_personal_options.Storage.Base.{append, put_row, returned, record_submit_attempt}
use hermes_personal_options.Storage.Attempts.{put_row-ok}
use hermes_personal_options.Storage.Provenance.{row_for-fields}
use hermes_personal_options.Services.Steps.{CycleError, Memory}
use hermes_personal_options.Services.Paper.{Outside, LocalPaperBroker, noted, attempted}
use hermes_personal_options.Services.PaperCycle.{audit, attempt}
use hermes_personal_options.Services.Accounts.{attempted-true}
use hermes_personal_options.Services.Tally.{
  Rows, tally, tally-append, add_object, Adds, submission-Adds,
}

noted-ok :
    {S : Type 0} (m : Memory S) (r : Result StorageError StoredEvent × S) (u : Unit {0})
    (after : Memory S)
    → noted m r ≡ (ok u, after)
    → (event : StoredEvent) × (r ≡ (ok event, after.store))
noted-ok m (err e, s) u after h = absurd (cc h)
noted-ok m (ok event, s) u after h = (event, ap (λ (x : _ × Memory _). (ok event, x.1.store)) h)

attempted-false :
    {S : Type 0} (m : Memory S) (r : Result StorageError StoredEvent × S) (after : Memory S)
    → attempted m r ≡ (ok false, after)
    → (r.0 ≡ err duplicate_idempotency_key) × (r.1 ≡ after.store)
attempted-false m (err StorageError.duplicate_idempotency_key, s) after h =
    (refl, ap (λ (x : _ × Memory _). x.1.store) h)
attempted-false m (err e, s) after h = absurd (cc h)
attempted-false m (ok event, s) after h = absurd (cc h)

never_duplicate :
    (valid : Bool) (e : StoredEvent)
    → ◌≡◌ {A = Result StorageError StoredEvent}
        (if valid then ok e else err StorageError.invalid_object)
        (err duplicate_idempotency_key)
    → ⊥
never_duplicate true e h = cc h
never_duplicate false e h = cc h

module _ (codec : Codec) (B : Backend) (L : IsLawful B) (decision_in : String → String) where
  abbrev pub seen : B.State → Rows
  seen s = tally decision_in (B.iter_events s)

  append-seen :
      (s after : B.State) (obj : HermesObject) (created_at recorded_at : AwareDateTime)
      (key : Option String) (e : StoredEvent)
      → Adds decision_in codec obj
      → append codec B s obj created_at recorded_at key ≡ (ok e, after)
      → seen after ≡ add_object decision_in obj (seen s)
  unfolding append
  append-seen s after obj created_at recorded_at key e adds stored =
      let (r, made, fresh, event, rows) = put_row-ok codec B L s _ e after stored in
      let (typed, payload, digest) = row_for-fields codec obj created_at recorded_at key r made in
      ap (tally decision_in) rows
      ∙ tally-append decision_in (B.iter_events s) e
      ∙ adds (seen s) e (typed ∙ ap (λ (x : StoredEvent). ok x.record_type) event)
          (payload ∙ ap (λ (x : StoredEvent). x.payload_json) event)

  -- An insertion that is refused for its key leaves the rows.
  put_row-duplicate :
      (s : B.State) (m : Result StorageError NewRow)
      → (put_row codec B s m).0 ≡ err duplicate_idempotency_key
      → B.iter_events (put_row codec B s m).1 ≡ B.iter_events s
  put_row-duplicate s (err f) h = refl
  put_row-duplicate s (ok r) h = elim (Bool-cases (key_taken (B.iter_events s) r.idempotency_key)) [
    | inl taken ↦ ap (λ p. B.iter_events p.1) (L.insert-taken s r taken)
    | inr fresh ↦
        let made : returned codec r (ok (suc (length (B.iter_events s))))
            ≡ err duplicate_idempotency_key =
          ap (returned codec r) (sym (L.insert-number s r fresh)) ∙ h in
        absurd (never_duplicate _ _ made)
  ]

module _ (outside : Outside) (B : Backend) (L : IsLawful B) (recorded_at : AwareDateTime)
    (decision_in : String → String) where
  open outside use {codec}

  abbrev pub seen_in : Memory B.State → Rows
  seen_in m = seen codec B L decision_in m.store

  pub audit-seen :
      (obj : HermesObject) (created_at : AwareDateTime) (m after : Memory B.State) (u : Unit {0})
      → Adds decision_in codec obj
      → audit outside B recorded_at obj created_at m ≡ (ok u, after)
      → seen_in after ≡ add_object decision_in obj (seen_in m)
  unfolding audit
  audit-seen obj created_at m after u adds h =
      let (event, stored) =
        noted-ok m (append codec B m.store obj created_at recorded_at none) u after h in
      append-seen codec B L decision_in m.store after.store obj created_at recorded_at none event
        adds stored

  module _ (broker : LocalPaperBroker) (clock : ℕ → AwareDateTime) where
    pub attempt-seen :
        (i : BrokerSubmitIntent) (m after : Memory B.State)
        → attempt outside B recorded_at broker clock i m ≡ (ok true, after)
        → seen_in after ≡ add_object decision_in (HermesObject.broker_submit_intent i) (seen_in m)
    unfolding attempt record_submit_attempt
    attempt-seen i m after h =
        let stored = record_submit_attempt codec B m.store i recorded_at in
        let (event, same) = attempted-true m stored (ap (λ p. p.0) h) in
        let store : (attempted m stored).1.store ≡ after.store =
          ap (λ (p : Result CycleError Bool × Memory B.State). p.1.store) h in
        append-seen codec B L decision_in m.store after.store (HermesObject.broker_submit_intent i)
          _ recorded_at (some i.idempotency_key) event (submission-Adds decision_in codec i)
          (same ∙ ap (λ s. (ok event, s)) store)

    pub attempt_refused-seen :
        (i : BrokerSubmitIntent) (m after : Memory B.State)
        → attempt outside B recorded_at broker clock i m ≡ (ok false, after)
        → seen_in after ≡ seen_in m
    unfolding attempt record_submit_attempt append
    attempt_refused-seen i m after h =
        let (refused, store) =
          attempted-false m (record_submit_attempt codec B m.store i recorded_at) after h in
        ap (λ s. seen codec B L decision_in s) (sym store)
        ∙ ap (tally decision_in) (put_row-duplicate codec B L decision_in m.store _ refused)
