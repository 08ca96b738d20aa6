-- ===== src/Brokers/Paper/Policy.antt =====
-- What the local paper broker lets through.
use hermes_personal_options.Common.{
  ◌≡◌, refl, sym, ◌∙◌, ap, Bool, true, false, not, ◌&&◌, ◌||◌, Option, none, some, Result, ok, err,
  is_ok, String, leb, any, str_eq, arith, Bool-cases, inl, inr, if◌then◌else◌,
}
use hermes_personal_options.Time.{AwareDateTime, before}
use hermes_personal_options.Schemas.Enums.{same_underlying, is_limit, is_paper_submit}
use hermes_personal_options.Schemas.Model.{construct-eq-ok}
use hermes_personal_options.Schemas.BrokerSubmission.{BrokerSubmitIntent}
use hermes_personal_options.Brokers.Base.{Failure, invalid_model}
use hermes_personal_options.Brokers.Fake.{FakeKind, FakeBroker, submit_order as inner_submit_order}
use hermes_personal_options.Brokers.Paper.{
  PaperBrokerConfig, paper_submission_armed, PaperSubmitApproval, validate_human_confirmation,
  validate_submit, submit_order, paper_submit_approval_for_intent, approval_valid, approval_of,
}

-- A result that is not a value is an error.
pub not_ok {ℓ κ} :
    {E : Type ℓ} {A : Type κ} (r : Result E A) → is_ok r ≡ false → (e : E) × (r ≡ err e)
not_ok (ok a) h = absurd cc
not_ok (err e) h = (e, refl)

pub is_ok-tt {ℓ} : {E : Type ℓ} (r : Result E (Unit {0})) → is_ok r ≡ true → r ≡ ok tt
is_ok-tt (ok tt) h = refl
is_ok-tt (err e) h = absurd cc

module _ (intent_digest : BrokerSubmitIntent → String) where
  -- The human has confirmed this whole submission, and not before it was made.
  abbrev pub confirms : PaperSubmitApproval → BrokerSubmitIntent → Bool
  confirms a i =
      str_eq a.order_ticket_hash i.order_ticket_hash
      && str_eq a.idempotency_key i.idempotency_key
      && not (before a.approved_at i.submitted_at)
      && str_eq a.full_intent_digest (intent_digest i)

  abbrev pub confirmed : BrokerSubmitIntent → Option PaperSubmitApproval → Bool
  confirmed i none = false
  confirmed i (some a) = confirms a i

  -- What the policy asks of a submission.
  abbrev pub permitted : PaperBrokerConfig → BrokerSubmitIntent → Option PaperSubmitApproval → Bool
  permitted c i confirmation =
      is_paper_submit i.submit_mode
      && (c.submission_enabled && c.paper_submit_enabled)
      && any (same_underlying i.ticket.validated_intent.candidate.underlying)
          c.paper_allowed_underlyings
      && leb i.ticket.validated_intent.candidate.short_leg.contracts c.paper_max_contracts
      && (not c.paper_limit_only || is_limit i.ticket.order_type)
      && (not c.paper_require_human_confirm || confirmed i confirmation)

  confirmation-decides :
      (i : BrokerSubmitIntent) (confirmation : Option PaperSubmitApproval)
      → is_ok (validate_human_confirmation intent_digest i confirmation) ≡ confirmed i confirmation
  unfolding validate_human_confirmation
  confirmation-decides i none = refl
  confirmation-decides i (some a) = ground arith

  validate_submit-decides :
      (c : PaperBrokerConfig) (i : BrokerSubmitIntent) (confirmation : Option PaperSubmitApproval)
      → is_ok (validate_submit intent_digest c i confirmation) ≡ permitted c i confirmation
  unfolding validate_submit paper_submission_armed
  validate_submit-decides c i confirmation = ground (arith, confirmation-decides i confirmation)

  -- A submission reaches the inner broker exactly if the mode is PAPER, both switches are on, the
  -- underlying, the count of contracts and the order type are allowed, and a human has confirmed
  -- this very submission where the configuration asks for it. Every other one is an error, whatever
  -- the inner broker is.
  pub submit_order-permitted :
      (c : PaperBrokerConfig) (kind : FakeKind) (inner : FakeBroker) (i : BrokerSubmitIntent)
      (confirmation : Option PaperSubmitApproval) (now : AwareDateTime)
      → (e : Failure) × (submit_order intent_digest c kind inner i confirmation now
          ≡ (if permitted c i confirmation then inner_submit_order kind inner i now else err e))
  unfolding submit_order
  submit_order-permitted c kind inner i confirmation now =
      elim (Bool-cases (permitted c i confirmation)) [
        | inl allowed ↦
            let passed =
              is_ok-tt (validate_submit intent_digest c i confirmation)
                (validate_submit-decides c i confirmation ∙ allowed) in
            (invalid_model, rw passed (rw allowed refl))
        | inr refused ↦
            let (e, failed) =
              not_ok (validate_submit intent_digest c i confirmation)
                (validate_submit-decides c i confirmation ∙ refused) in
            (e, rw failed (rw refused refl))
      ]

  -- The token that is made for one submission passes the check of the confirmation of another
  -- exactly if both have one hash, one key and one digest of the whole, and the other was not made
  -- after the approval.
  pub approval-confirms :
      (i j : BrokerSubmitIntent) (approved_by : String) (approved_at : AwareDateTime)
      (a : PaperSubmitApproval)
      → paper_submit_approval_for_intent intent_digest i approved_by approved_at ≡ ok a
      → is_ok (validate_human_confirmation intent_digest j (some a)) ≡ (
          str_eq i.order_ticket_hash j.order_ticket_hash
          && str_eq i.idempotency_key j.idempotency_key
          && not (before approved_at j.submitted_at)
          && str_eq (intent_digest i) (intent_digest j))
  unfolding paper_submit_approval_for_intent
  approval-confirms i j approved_by approved_at a made =
      confirmation-decides j (some a)
      ∙ ap (λ b. confirms b j)
          (sym (
            (construct-eq-ok approval_valid (approval_of intent_digest i approved_by approved_at)
              made).1))
