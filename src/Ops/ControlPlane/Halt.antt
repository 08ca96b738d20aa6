-- ===== src/Ops/ControlPlane/Halt.antt =====
-- What each command leaves behind, and that a halt stays in force until a human resumes.
use hermes_personal_options.Common.{
  ◌≡◌, refl, Bool, true, false, Option, none, some, [], ◌∷◌, String, is_empty,
}
use hermes_personal_options.Common.Text.{upper_is}
use hermes_personal_options.Time.{AwareDateTime}
use hermes_personal_options.Schemas.Enums.{
  ReArmMode, operator_halt_command, operator_resume_command, operator_flatten_command,
}
use hermes_personal_options.Schemas.Audit.{AuditArtifact, is_refusal}
use hermes_personal_options.Schemas.KillSwitch.{KillSwitchState}
use hermes_personal_options.Brokers.Fake.{FakeBroker}
use hermes_personal_options.Ops.StatusReport.{FlattenReport}
use hermes_personal_options.Ops.ControlPlane.{
  Command, status, halt_new_entries, resume_new_entries, flatten_paper_only, show_open_orders,
  audit_artifact, kill_switch_state, ControlPlane, OperatorError, Authorization, append_event,
  authorization_problem, artifact_for, refuse, operator_reason, halted_switch, resumed_switch,
  current_kill_switch, halt, resume, halt_detail, resume_detail, status_command, show_orders,
  record_command_rejection,
}
use hermes_personal_options.Ops.ControlPlane.Audit.{
  reject_recordable, audit_recorded, require_human_refused, require_human_met, halted_switch-valid,
  resumed_switch-valid, record_switch_lem,
}

-- Only an artifact was appended, and at most the broker has changed.
abbrev pub Noted : ControlPlane → ControlPlane → Type 0
Noted c after =
    (b : Option FakeBroker) × (a : AuditArtifact) × (append_event (record c { broker = b })
        (audit_artifact a)
      ≡ after)

-- An artifact was appended, and a state of the switch behind it.
abbrev pub Switched : Bool → ControlPlane → ControlPlane → Type 0
Switched halted c after =
    (a : AuditArtifact) × (k : KillSwitchState) × (k.halted ≡ halted)
    × (append_event (append_event c (audit_artifact a)) (kill_switch_state k) ≡ after)

module _ (stamp : AwareDateTime → String) where
  pub halt_refused :
      (c : ControlPlane) (auth : Authorization) (rearm_mode : ReArmMode) (note problem : String)
      (now : AwareDateTime)
      → authorization_problem auth halt_new_entries ≡ some problem
      → Noted c ((halt stamp c auth rearm_mode note now).1)
  unfolding halt
  halt_refused c auth rearm_mode note problem now h =
      rw (require_human_refused stamp c auth halt_new_entries now problem h refl)
        (c.broker, _, refl)

  pub halt_met :
      (c : ControlPlane) (auth : Authorization) (rearm_mode : ReArmMode) (note : String)
      (now : AwareDateTime)
      → authorization_problem auth halt_new_entries ≡ none
      → Switched true c ((halt stamp c auth rearm_mode note now).1)
  unfolding halt is_refusal upper_is
  halt_met c auth rearm_mode note now h =
      let codes = operator_halt_command ∷ [] in
      let a = artifact_for stamp c halt_new_entries "HALT" now codes (halt_detail note) in
      let k = halted_switch stamp rearm_mode note now a in
      let valid = halted_switch-valid stamp c rearm_mode note (halt_detail note) now in
      rw (require_human_met stamp c auth halt_new_entries now h) (
        rw (audit_recorded stamp c halt_new_entries "HALT" now codes (halt_detail note) refl) (
          rw (record_switch_lem stamp (append_event c (audit_artifact a)) k valid)
            (a, k, refl, refl)))

  pub resume_refused :
      (c : ControlPlane) (auth : Authorization) (note problem : String) (now : AwareDateTime)
      → authorization_problem auth resume_new_entries ≡ some problem
      → Noted c ((resume stamp c auth note now).1)
  unfolding resume
  resume_refused c auth note problem now h =
      rw (require_human_refused stamp c auth resume_new_entries now problem h refl)
        (c.broker, _, refl)

  pub resume_met :
      (c : ControlPlane) (auth : Authorization) (note : String) (now : AwareDateTime)
      → authorization_problem auth resume_new_entries ≡ none
      → Switched false c ((resume stamp c auth note now).1)
  unfolding resume is_refusal upper_is
  resume_met c auth note now h =
      let codes = operator_resume_command ∷ [] in
      let detail = resume_detail (current_kill_switch c) note in
      let a = artifact_for stamp c resume_new_entries "RESUME" now codes detail in
      let k = resumed_switch stamp note now a in
      let valid = resumed_switch-valid stamp c note detail now in
      rw (require_human_met stamp c auth resume_new_entries now h) (
        rw (audit_recorded stamp c resume_new_entries "RESUME" now codes detail refl) (
          rw (record_switch_lem stamp (append_event c (audit_artifact a)) k valid)
            (a, k, refl, refl)))

  pub status-Noted :
      (c : ControlPlane) (now : AwareDateTime) → Noted c ((status_command stamp c now).1)
  unfolding status_command is_refusal upper_is
  status-Noted c now = rw (audit_recorded stamp c status "READ" now [] "" refl) (c.broker, _, refl)

  pub orders-Noted :
      (c : ControlPlane) (now : AwareDateTime) → Noted c ((show_orders stamp c now).1)
  unfolding show_orders is_refusal upper_is
  orders-Noted c now =
      rw (audit_recorded stamp c show_open_orders "READ" now [] "" refl) (c.broker, _, refl)

  pub rejection-Noted :
      (c : ControlPlane) (command : Command) (detail : String) (now : AwareDateTime)
      → is_empty (operator_reason command) ≡ false
      → Noted c ((record_command_rejection stamp c command detail now).1)
  unfolding record_command_rejection
  rejection-Noted c command detail now reason =
      rw
        (
          audit_recorded stamp c command "REJECT" now (operator_reason command) detail
              (reject_recordable stamp (operator_reason command) reason),
          record_command_rejection,
        )
        (c.broker, _, refl)

  -- A refusal of the flatten command, on whatever broker is left.
  pub refuse-Noted :
      (c : ControlPlane) (b : Option FakeBroker) (now : AwareDateTime) (detail : String)
      (error : OperatorError)
      → Noted c (
          (refuse stamp {A = FlattenReport}
            (record c { broker = b })
            flatten_paper_only
            now
            detail
            error).1)
  refuse-Noted c b now detail error =
      rw
        (
          audit_recorded stamp (record c { broker = b }) flatten_paper_only "REJECT" now
              (operator_flatten_command ∷ []) detail
              (reject_recordable stamp (operator_flatten_command ∷ []) refl),
          refuse,
        )
        (b, _, refl)
