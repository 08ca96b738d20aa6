-- ===== src/Schemas/ReconciliationState.antt =====
-- schemas/reconciliation_state.py: the outcome of a comparison of positions.
use hermes_personal_options.Common.{
  Bool, true, false, not, ◌&&◌, ◌||◌, Option, List, String, str_eq, is_empty, is_absent, any,
}
use hermes_personal_options.Time.{AwareDateTime}
use hermes_personal_options.Schemas.Enums.{ReasonCode, reconciliation_mismatch, same_reason}
use hermes_personal_options.Schemas.Audit.{AuditArtifact, HumanRequiredEvent}
use hermes_personal_options.Schemas.PositionState.{PositionSnapshot}

pub data ReconciliationStatus : Type 0 where
  match mismatch : ReconciliationStatus

pub data ReconciliationPermission : Type 0 where
  new_entries_allowed managed_exit_only : ReconciliationPermission

pub record ReconciliationSnapshot : Type 0 where
  pub reconciliation_id : String
  pub created_at : AwareDateTime
  pub expected : PositionSnapshot
  pub broker : PositionSnapshot
  pub status : ReconciliationStatus
  pub permission : ReconciliationPermission
  pub reason_codes : List ReasonCode
  pub audit_artifact : Option AuditArtifact
  pub human_required_event : Option HumanRequiredEvent
  pub managed_exit_allowed : Bool
  pub flatten_allowed : Bool

abbrev is_managed_exit_only : ReconciliationPermission → Bool
is_managed_exit_only new_entries_allowed = false
is_managed_exit_only managed_exit_only = true

unfoldable pub blocks_new_entries : ReconciliationSnapshot → Bool
blocks_new_entries r = is_managed_exit_only r.permission

abbrev status_coherent : ReconciliationSnapshot → ReconciliationStatus → Bool
status_coherent r match =
    not (is_managed_exit_only r.permission)
    && (is_empty r.reason_codes && is_absent r.audit_artifact && is_absent r.human_required_event)
    && not (r.managed_exit_allowed || r.flatten_allowed)
status_coherent r mismatch =
    is_managed_exit_only r.permission
    && any (same_reason reconciliation_mismatch) r.reason_codes
    && not (is_absent r.audit_artifact)
    && (r.managed_exit_allowed && r.flatten_allowed)

-- The bound of the id, and `_coherent`.
unfoldable pub reconciliation_valid : ReconciliationSnapshot → Bool
reconciliation_valid r = not (str_eq r.reconciliation_id "") && status_coherent r r.status
