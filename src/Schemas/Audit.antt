-- ===== src/Schemas/Audit.antt =====
-- schemas/audit_artifact.py and schemas/human_required_event.py: the records of a refusal.
use hermes_personal_options.Common.{Bool, ◌&&◌, ◌||◌, not, List, String, str_eq, is_empty}
use hermes_personal_options.Common.Text.{upper_is}
use hermes_personal_options.Time.{AwareDateTime}
use hermes_personal_options.Schemas.Enums.{ReasonCode, HumanRequiredKind}

pub record AuditArtifact : Type 0 where
  pub artifact_id : String
  pub created_at : AwareDateTime
  pub decision : String
  pub reason_codes : List ReasonCode
  pub detail : String

-- `decision.upper() in ("REJECT", "HALT")`
unfoldable pub is_refusal : String → Bool
unfolding upper_is
is_refusal decision = upper_is "REJECT" decision || upper_is "HALT" decision

-- The bounds of the fields, and `_rejections_carry_reason`.
unfoldable pub artifact_valid : AuditArtifact → Bool
artifact_valid a =
    not (str_eq a.artifact_id "")
    && not (str_eq a.decision "")
    && not (is_refusal a.decision && is_empty a.reason_codes)

pub record HumanRequiredEvent : Type 0 where
  pub kind : HumanRequiredKind
  pub reason_code : ReasonCode
  pub created_at : AwareDateTime
  pub audit_artifact_id : String
  pub resolved : Bool

unfoldable pub human_event_valid : HumanRequiredEvent → Bool
human_event_valid e = not (str_eq e.audit_artifact_id "")
