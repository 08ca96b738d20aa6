-- ===== src/Ops/ControlPlane/Audit.antt =====
-- Every command leaves exactly one audit artifact, whether it succeeds or is refused.
use Prim.Native.String.{◌++◌ as append_text, count as text_length}
use text.Mathlib.TextLemmas.{length-append}
use hermes_personal_options.Common.{
  ℕ, suc, ◌+◌, ◌≡◌, refl, ◌∙◌, ap, Bool, true, false, not, ◌&&◌, none, some, List, [], ◌∷◌, ◌++◌,
  ok, err, String, str_eq, leb, is_empty, arith,
}
use hermes_personal_options.Common.Text.{nonempty_text, upper_is}
use hermes_personal_options.Time.{AwareDateTime}
use hermes_personal_options.Schemas.Enums.{
  ReasonCode, ReArmMode, operator_halt_command, operator_resume_command,
}
use hermes_personal_options.Schemas.Model.{construct-ok}
use hermes_personal_options.Schemas.Audit.{AuditArtifact, artifact_valid, is_refusal}
use hermes_personal_options.Schemas.KillSwitch.{KillSwitchState, kill_switch_valid}
use hermes_personal_options.Ops.ControlPlane.{
  Command, status, halt_new_entries, resume_new_entries, flatten_paper_only, cancel_open_orders,
  show_open_orders, show_positions, show_last_decision, export_audit, command_name, operator_reason,
  Event, audit_artifact, kill_switch_state, other_record, ControlPlane, authority_error,
  Authorization, append_event, authorization_problem, artifact_for, audit, require_human,
  halted_switch, resumed_switch, record_switch,
}

-- How many audit artifacts a store holds.
abbrev pub count_audits : List Event → ℕ
count_audits [] = 0
count_audits (audit_artifact a ∷ events) = suc (count_audits events)
count_audits (kill_switch_state k ∷ events) = count_audits events
count_audits (other_record r ∷ events) = count_audits events

count_audits-append :
    (xs ys : List Event) → count_audits (xs ++ ys) ≡ count_audits xs + count_audits ys
count_audits-append [] ys = omega arith
count_audits-append (audit_artifact a ∷ xs) ys = omega (arith, count_audits-append xs ys)
count_audits-append (kill_switch_state k ∷ xs) ys = count_audits-append xs ys
count_audits-append (other_record r ∷ xs) ys = count_audits-append xs ys

name_long : (c : Command) (n : ℕ) → leb 1 (text_length (command_name c) + n) ≡ true
name_long status n = ground arith
name_long halt_new_entries n = ground arith
name_long resume_new_entries n = ground arith
name_long flatten_paper_only n = ground arith
name_long cancel_open_orders n = ground arith
name_long show_open_orders n = ground arith
name_long show_positions n = ground arith
name_long show_last_decision n = ground arith
name_long export_audit n = ground arith

module _ (stamp : AwareDateTime → String) where
  name-nonempty :
      (command : Command) (rest : String)
      → str_eq (append_text (command_name command) rest) "" ≡ false
  name-nonempty command rest = nonempty_text (append_text (command_name command) rest) (
      ap (leb 1) (length-append (command_name command) rest) ∙ name_long command (text_length rest))

  -- A decision that may be recorded with the given codes.
  abbrev pub recordable : String → List ReasonCode → Bool
  recordable decision codes =
      not (str_eq decision "") && not (is_refusal decision && is_empty codes)

  artifact-valid :
      (c : ControlPlane) (command : Command) (decision : String) (now : AwareDateTime)
      (codes : List ReasonCode) (detail : String)
      → recordable decision codes ≡ true
      → artifact_valid (artifact_for stamp c command decision now codes detail) ≡ true
  unfolding artifact_valid
  artifact-valid c command decision now codes detail h = rw (name-nonempty command _) (ground arith)

  pub audit_recorded :
      (c : ControlPlane) (command : Command) (decision : String) (now : AwareDateTime)
      (codes : List ReasonCode) (detail : String)
      → recordable decision codes ≡ true
      → audit stamp c command decision now codes detail ≡ (
        ok (artifact_for stamp c command decision now codes detail),
        append_event c (audit_artifact (artifact_for stamp c command decision now codes detail)),
      )
  unfolding audit
  audit_recorded c command decision now codes detail h =
      rw
        (
          construct-ok artifact_valid (artifact_for stamp c command decision now codes detail)
              (artifact-valid c command decision now codes detail h),
          audit,
        )
        refl

  pub reject_recordable :
      (codes : List ReasonCode) → is_empty codes ≡ false → recordable "REJECT" codes ≡ true
  unfolding is_refusal upper_is
  reject_recordable codes h = rw h refl

  -- A command that lacks its authorization.
  pub require_human_refused :
      (c : ControlPlane) (auth : Authorization) (command : Command) (now : AwareDateTime)
      (problem : String)
      → authorization_problem auth command ≡ some problem
      → is_empty (operator_reason command) ≡ false
      → require_human stamp c auth command now ≡ (
        err authority_error,
        append_event c (
            audit_artifact (
              artifact_for stamp c command "REJECT" now
                (operator_reason command)
                (append_text "unauthorized: " problem))),
      )
  unfolding require_human
  require_human_refused c auth command now problem h reason =
      rw (h, require_human)
        (rw
          (audit_recorded c command "REJECT" now (operator_reason command)
            (append_text "unauthorized: " problem)
            (reject_recordable (operator_reason command) reason))
          refl)

  pub require_human_met :
      (c : ControlPlane) (auth : Authorization) (command : Command) (now : AwareDateTime)
      → authorization_problem auth command ≡ none
      → require_human stamp c auth command now ≡ (ok tt, c)
  unfolding require_human
  require_human_met c auth command now h = rw (h, require_human) refl

  -- One more artifact.
  pub once :
      (xs : List Event) (a : AuditArtifact)
      → count_audits (xs ++ audit_artifact a ∷ []) ≡ suc (count_audits xs)
  once xs a = omega (arith, count_audits-append xs (audit_artifact a ∷ []))

  pub unchanged :
      (xs : List Event) (k : KillSwitchState)
      → count_audits (xs ++ kill_switch_state k ∷ []) ≡ count_audits xs
  unchanged xs k = omega (arith, count_audits-append xs (kill_switch_state k ∷ []))

  pub halted_switch-valid :
      (c : ControlPlane) (rearm_mode : ReArmMode) (note detail : String) (now : AwareDateTime)
      → kill_switch_valid (
          halted_switch stamp rearm_mode note now
            (artifact_for stamp c halt_new_entries "HALT" now (operator_halt_command ∷ []) detail))
        ≡ true
  unfolding kill_switch_valid
  halted_switch-valid c rearm_mode note detail now = rw (name-nonempty halt_new_entries _) refl

  pub resumed_switch-valid :
      (c : ControlPlane) (note detail : String) (now : AwareDateTime)
      → kill_switch_valid (
          resumed_switch stamp note now (
            artifact_for stamp c resume_new_entries "RESUME" now
              (operator_resume_command ∷ [])
              detail))
        ≡ true
  unfolding kill_switch_valid
  resumed_switch-valid c note detail now = rw (name-nonempty resume_new_entries _) refl

  pub record_switch_lem :
      (c : ControlPlane) (k : KillSwitchState)
      → kill_switch_valid k ≡ true
      → record_switch stamp c k ≡ (ok k, append_event c (kill_switch_state k))
  record_switch_lem c k h = rw (construct-ok kill_switch_valid k h, record_switch) refl
