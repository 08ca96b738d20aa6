-- ===== src/Services/PlainRejection.antt =====
-- services/paper_cycle.py: a rejection that the gateway answers with is no artifact of a duplicate.
use mathlib.Core.Path.{subst}
use hermes_personal_options.Common.{
  false, Option, none, some, List, [], ◌∷◌, String, Result, ok, err, ok-injective, >>=-eq-ok,
  is_empty, concat, str_eq, ◌≡◌, refl, ap, sym, ◌∙◌, Bool-cases, inl, inr, ◌⊎◌,
}
use hermes_personal_options.Time.{AwareDateTime}
use hermes_personal_options.Schemas.Enums.{ReasonCode, internal_contradiction}
use hermes_personal_options.Schemas.Model.{ModelError, construct, construct-eq-ok}
use hermes_personal_options.Schemas.Audit.{AuditArtifact, artifact_valid}
use hermes_personal_options.Gateway.Request.{GatewayRequest, is_zero_dte_after_2pm_ct}
use hermes_personal_options.Gateway.Gates.{gate_data_freshness}
use hermes_personal_options.Gateway.Validate.{
  GatewayDecision, freshness_of, add_all, outcomes, assemble, artifact_of, reject, approve_request,
  validate,
}
use hermes_personal_options.Services.Endings.{if-then, if-else}

-- A rejection of the gateway is no artifact of a duplicate.
abbrev pub Plain : Option AuditArtifact → Type 0
Plain none = Unit
Plain (some a) = str_eq a.decision "PAPER_SUBMIT_DUPLICATE_SKIPPED" ≡ false

artifact_of-eq-ok :
    (r : Result ModelError AuditArtifact) (a : AuditArtifact) → artifact_of r ≡ ok a → r ≡ ok a
artifact_of-eq-ok (ok b) a h = ap ok (ok-injective h)
artifact_of-eq-ok (err e) a h = absurd (cc h)

Result-cases : {E A : Type 0} (r : Result E A) → ((a : A) × (r ≡ ok a)) ⊎ ((e : E) × (r ≡ err e))
Result-cases (ok a) = inl (a, refl)
Result-cases (err e) = inr (e, refl)

module _ (request_digest : GatewayRequest → List ReasonCode → String) where
  reject-Plain :
      (r : GatewayRequest) (codes : List ReasonCode) (d : GatewayDecision)
      → reject request_digest r codes ≡ ok d
      → Plain d.rejection
  unfolding reject
  reject-Plain r codes d h =
      let (a, made, same) = >>=-eq-ok (artifact_of (construct artifact_valid _)) _ h in
      let plain : Plain (some a) =
        ap (λ (x : AuditArtifact). str_eq x.decision "PAPER_SUBMIT_DUPLICATE_SKIPPED")
          (sym (construct-eq-ok artifact_valid _ (artifact_of-eq-ok _ a made)).1) in
      subst (λ (x : GatewayDecision). Plain x.rejection) (ok-injective same) plain

  approve_request-Plain :
      (r : GatewayRequest) (d : GatewayDecision)
      → approve_request request_digest r ≡ ok d
      → Plain d.rejection
  unfolding approve_request
  approve_request-Plain r d h = elim (Result-cases (assemble r)) [
    | inl (v, made) ↦
        let approval : GatewayDecision = record {
          approved = some v;
          rejection = none;
          reason_codes = [];
        } in
        let same : approve_request request_digest r ≡ ok approval = rw (made, approve_request) in
        subst (λ (x : GatewayDecision). Plain x.rejection) (ok-injective (sym same ∙ h)) tt
    | inr (e, refused) ↦
        let same : approve_request request_digest r
            ≡ reject request_digest r (internal_contradiction ∷ []) =
          rw (refused, approve_request) in
        reject-Plain r (internal_contradiction ∷ []) d (sym same ∙ h)
  ]

  pub validate-Plain :
      (chicago : AwareDateTime → AwareDateTime) (r : GatewayRequest) (d : GatewayDecision)
      → validate request_digest chicago r ≡ ok d
      → Plain d.rejection
  unfolding validate
  validate-Plain chicago r d h =
      let (freshness, gated, rest) =
        >>=-eq-ok
          (freshness_of
            (gate_data_freshness r.data_snapshot r.as_of (is_zero_dte_after_2pm_ct chicago r)))
          _ h in
      elim (Bool-cases (is_empty (add_all [] (concat (outcomes chicago r freshness))))) [
        | inl clean ↦ approve_request-Plain r d (sym (if-then _ _ _ clean) ∙ rest)
        | inr coded ↦ reject-Plain r _ d (sym (if-else _ _ _ coded) ∙ rest)
      ]
