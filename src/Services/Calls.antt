-- ===== src/Services/Calls.antt =====
-- services/paper_cycle.py: each call of the cycle keeps the orders of the broker accounted for.
use mathlib.Core.Path.{subst}
use hermes_personal_options.Common.{
  ℕ, suc, Bool, true, false, ◌||◌, Option, none, some, List, [], ◌∷◌, String, Result, ok, err, any,
  any-append, All, is_absent, length, ◌≡◌, refl, ap, sym, ◌∙◌, ◌⊎◌, inl, inr,
}
use hermes_personal_options.Common.Dict.{get}
use hermes_personal_options.Common.Sort.{All-map}
use hermes_personal_options.Time.{AwareDateTime}
use hermes_personal_options.Schemas.Enums.{is_paper_submit, ReasonCode}
use hermes_personal_options.Schemas.BrokerSubmission.{BrokerSubmitIntent}
use hermes_personal_options.Brokers.Base.{BrokerFill, Failure, broker_error, BrokerErrorKind}
use hermes_personal_options.Brokers.Fake.{FakeBroker}
use hermes_personal_options.Brokers.Paper.{PaperSubmitApproval, validate_submit}
use hermes_personal_options.Storage.Models.{HermesObject}
use hermes_personal_options.Storage.Backend.{Backend, IsLawful, carries, event_of}
use hermes_personal_options.Storage.Base.{append, row_for, record_submit_attempt}
use hermes_personal_options.Storage.Later.{put_row-cases, Later}
use hermes_personal_options.Storage.Attempts.{record_submit_attempt-once}
use hermes_personal_options.Storage.Rows.{find-any}
use hermes_personal_options.Services.Steps.{
  Memory, Keeps, >>=-Keeps, >>-Keeps, give-Keeps, call-Keeps,
}
use hermes_personal_options.Services.Paper.{
  Outside, LocalPaperBroker, PaperCounters, noted, attempted, answered,
}
use hermes_personal_options.Services.PaperCycle.{
  audit, audit_artifact, defer, attempt, submit, settle,
}
use hermes_personal_options.Services.Accounts.{
  submit_order-All, noted-store, attempted-store, attempted-true,
}

module _ (outside : Outside) (B : Backend) (L : IsLawful B) (recorded_at : AwareDateTime) where
  open outside use {codec, intent_digest}

  -- A row of the store has the key.
  abbrev pub Recorded : B.State → String → Type 0
  Recorded s k = any (carries k) (B.iter_events s) ≡ true

  append-Recorded :
      (s : B.State) (obj : HermesObject) (created_at : AwareDateTime) (key : Option String)
      (k : String)
      → Recorded s k
      → Recorded (append codec B s obj created_at recorded_at key).1 k
  unfolding append
  append-Recorded s obj created_at key k h =
      elim (put_row-cases codec B L s (row_for codec obj created_at recorded_at key)) [
        | inl same ↦ ap (λ x. any (carries k) (B.iter_events x)) same ∙ h
        | inr (r, made, fresh, rows) ↦
            ap (any (carries k)) rows
            ∙ any-append (carries k) (B.iter_events s) _
            ∙ ap (λ b. b || any (carries k) (event_of (suc (length (B.iter_events s))) r ∷ [])) h
      ]

  module _ (broker : LocalPaperBroker) (clock : ℕ → AwareDateTime)
      (confirmer : BrokerSubmitIntent → Option PaperSubmitApproval) where
    -- An order of the run: its intent was for paper, was confirmed, passed the broker's policy with that
    -- confirmation, and its attempt is in the store.
    abbrev pub Sanctioned : B.State → String → Type 0
    Sanctioned s k =
        (i : BrokerSubmitIntent) × (a : PaperSubmitApproval) × (i.idempotency_key ≡ k)
        × (is_paper_submit i.submit_mode ≡ true)
        × (confirmer i ≡ some a)
        × (validate_submit intent_digest broker.config i (some a) ≡ ok tt)
        × Recorded s k

    module _ (before : FakeBroker) where
      abbrev pub Accounted : B.State → String → Type 0
      Accounted s k = (is_absent (get before.fills k) ≡ false) ⊎ Sanctioned s k

      abbrev pub AllAccounted : Memory B.State → Type 0
      AllAccounted m = All (λ e. Accounted m.store e.0) m.broker.fills

      Accounted-more :
          (s t : B.State) (k : String)
          → (Recorded s k → Recorded t k)
          → Accounted s k
          → Accounted t k
      Accounted-more s t k kept (inl there) = inl there
      Accounted-more s t k kept (inr (i, a, key, paper, confirmed, passed, row)) =
          inr (i, a, key, paper, confirmed, passed, kept row)

      -- A store in which no key is lost keeps the orders accounted for.
      later_store :
          (m after : Memory B.State)
          → ((k : String) → Recorded m.store k → Recorded after.store k)
          → after.broker ≡ m.broker
          → AllAccounted m
          → AllAccounted after
      later_store m after kept same h =
          subst (λ x. All (λ (e : String × BrokerFill). Accounted after.store e.0) x.fills)
            (sym same)
            (All-map (λ e. Accounted m.store e.0) (λ e. Accounted after.store e.0) m.broker.fills
              (λ e. Accounted-more m.store after.store e.0 (kept e.0)) h)

      pub audit-Keeps :
          (obj : HermesObject) (created_at : AwareDateTime)
          → Keeps AllAccounted (audit outside B recorded_at obj created_at)
      unfolding audit
      audit-Keeps obj created_at m h =
          let stored = append codec B m.store obj created_at recorded_at none in
          let (store, same) = noted-store m stored in
          later_store m (noted m stored).1
            (λ k there.
              subst (λ s. Recorded s k) (sym store)
                (append-Recorded m.store obj created_at none k there))
            same h

      pub attempt-Keeps :
          (i : BrokerSubmitIntent)
          → Keeps AllAccounted (attempt outside B recorded_at broker clock i)
      unfolding attempt record_submit_attempt
      attempt-Keeps i m h =
          let stored = record_submit_attempt codec B m.store i recorded_at in
          let (store, same) = attempted-store m stored in
          later_store m (attempted m stored).1
            (λ k there.
              subst (λ s. Recorded s k) (sym store)
                (append-Recorded m.store _ _ (some i.idempotency_key) k there))
            same h

      pub attempt-Recorded :
          (i : BrokerSubmitIntent) (m : Memory B.State) (done : Bool)
          → (attempt outside B recorded_at broker clock i m).0 ≡ ok done
          → done ≡ true
          → Recorded (attempt outside B recorded_at broker clock i m).1.store i.idempotency_key
      unfolding attempt
      attempt-Recorded i m done h put =
          let stored = record_submit_attempt codec B m.store i recorded_at in
          let (event, same) = attempted-true m stored (h ∙ ap ok put) in
          let (found, _, _) =
            record_submit_attempt-once codec B L m.store _ i i recorded_at recorded_at event same
              Later.now refl in
          find-any (carries i.idempotency_key) (B.iter_events (attempted m stored).1.store)
            (sym (L.get_by_idempotency_key-find _ _) ∙ found)

      answered-Keeps :
          (m : Memory B.State) (r : Result Failure (BrokerFill × FakeBroker))
          → ((fill : BrokerFill) (b : FakeBroker)
              → r ≡ ok (fill, b)
              → AllAccounted (record m { broker = b }))
          → AllAccounted m
          → AllAccounted (answered m r).1
      answered-Keeps m (ok (fill, b)) new h = new fill b refl
      answered-Keeps m (err (broker_error kind reason)) new h = h
      answered-Keeps m (err f) new h = h

      pub submit-Keeps :
          (i : BrokerSubmitIntent) (a : PaperSubmitApproval) (ordinal : ℕ) (m : Memory B.State)
          → confirmer i ≡ some a
          → AllAccounted m
          → Recorded m.store i.idempotency_key
          → AllAccounted (submit outside B recorded_at broker clock i a ordinal m).1
      unfolding submit
      submit-Keeps i a ordinal m confirmed h row =
          answered-Keeps m _
            (λ fill b answer.
              submit_order-All intent_digest broker (Accounted m.store) m.broker i a (clock ordinal)
                fill b answer h (λ passed paper. inr (i, a, refl, paper, confirmed, passed, row)))
            h

      pub artifact-Keeps :
          (artifact_id decision : String) (reason_codes : List ReasonCode) (detail : String)
          → Keeps AllAccounted
              (audit_artifact outside B recorded_at artifact_id decision reason_codes detail)
      unfolding audit_artifact
      artifact-Keeps artifact_id decision reason_codes detail =
          >>=-Keeps AllAccounted _ _ (call-Keeps AllAccounted _ _) (λ artifact. audit-Keeps _ _)

      pub defer-Keeps :
          (detail : String) (reason : ReasonCode) (tag : String) (ordinal : ℕ)
          → Keeps AllAccounted (defer outside B recorded_at detail reason tag ordinal)
      unfolding defer
      defer-Keeps detail reason tag ordinal = artifact-Keeps _ _ _ _

      pub settle-Keeps :
          (i : BrokerSubmitIntent) (ordinal : ℕ) (c : PaperCounters)
          (answer : Result (BrokerErrorKind × ReasonCode) BrokerFill)
          → Keeps AllAccounted (settle outside B recorded_at broker clock i ordinal c answer)
      unfolding settle
      settle-Keeps i ordinal c (err (kind, reason)) =
          >>=-Keeps AllAccounted _ _ (call-Keeps AllAccounted _ _)
            (λ artifact. >>-Keeps AllAccounted _ _ (audit-Keeps _ _) (give-Keeps AllAccounted _))
      settle-Keeps i ordinal c (ok fill) =
          >>=-Keeps AllAccounted _ _ (call-Keeps AllAccounted _ _)
            (λ report. >>-Keeps AllAccounted _ _ (audit-Keeps _ _) (give-Keeps AllAccounted _))
