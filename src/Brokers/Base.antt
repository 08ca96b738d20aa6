-- ===== src/Brokers/Base.antt =====
-- brokers/base.py and brokers/errors.py: what an adapter answers, and how it fails.
use hermes_personal_options.Common.{
  ℕ, Bool, true, false, Option, [], ◌∷◌, Result, ok, err, String, ltb,
}
use hermes_personal_options.Decimal.{Decimal}
use hermes_personal_options.Time.{AwareDateTime}
use hermes_personal_options.Schemas.Enums.{
  OrderLifecycleState, pending_submit, submitted, working, partial_fill, ReasonCode,
}
use hermes_personal_options.Schemas.Model.{ModelError, construct}
use hermes_personal_options.Schemas.Audit.{AuditArtifact, artifact_valid}
use hermes_personal_options.Schemas.BrokerSubmission.{BrokerOrderId}

pub record BrokerFill : Type 0 where
  pub broker_order_id : BrokerOrderId
  pub lifecycle_state : OrderLifecycleState
  pub filled_contracts : ℕ
  pub requested_contracts : ℕ
  pub avg_fill_price : Option Decimal
  pub fill_timestamp : Option AwareDateTime
  pub submitted_at : AwareDateTime
  pub completed_at : Option AwareDateTime

unfoldable pub fill_valid : BrokerFill → Bool
fill_valid f = ltb 0 f.requested_contracts

pub record BrokerAccountView : Type 0 where
  pub account_id : String
  pub cash : Decimal
  pub buying_power : Decimal
  pub net_liquidating_value : Decimal

-- The subclasses of BrokerError.
pub data BrokerErrorKind : Type 0 where
  broker_rejected broker_disconnect broker_timeout live_submit_not_permitted
        paper_submission_disabled paper_policy_violation human_confirmation_required unknown_order
        order_not_cancellable :
      BrokerErrorKind

-- What a call of an adapter raises: an error of the broker with its reason code, a model that
-- pydantic refuses, or a key that a dict does not have.
pub data Failure : Type 0 where
  broker_error : BrokerErrorKind → ReasonCode → Failure
  invalid_model key_error : Failure

abbrev pub model_outcome : {A : Type 0} → Result ModelError A → Result Failure A
model_outcome (ok a) = ok a
model_outcome (err e) = err invalid_model

-- `_OPEN_STATES`
abbrev pub is_open : OrderLifecycleState → Bool
is_open pending_submit = true
is_open submitted = true
is_open working = true
is_open partial_fill = true
is_open _ = false

-- The rejection that records a broker's error.
unfoldable pub audit_artifact_from_broker_error :
    ReasonCode → String → String → AwareDateTime → Result ModelError AuditArtifact
audit_artifact_from_broker_error reason_code detail artifact_id created_at =
    construct artifact_valid (record {
      artifact_id = artifact_id;
      created_at = created_at;
      decision = "REJECT";
      reason_codes = reason_code ∷ [];
      detail = detail;
    })
