-- ===== src/Ops/ControlPlane/Run.antt =====
-- Runs of commands: one audit artifact for each, and a halt that holds until a human resumes.
use hermes_personal_options.Common.{
  suc, ◌≡◌, refl, sym, ◌∙◌, ap, Bool, true, false, not, Option, none, some, List, [], ◌∷◌, ◌++◌, ok,
  err, Result, String, is_empty, is_absent, Bool-cases, Option-cases, inl, inr, ◌⊎◌,
}
use hermes_personal_options.Common.Text.{upper_is}
use hermes_personal_options.Time.{AwareDateTime}
use hermes_personal_options.Schemas.Enums.{ReArmMode, operator_flatten_command}
use hermes_personal_options.Schemas.Audit.{AuditArtifact, is_refusal}
use hermes_personal_options.Schemas.KillSwitch.{KillSwitchState}
use hermes_personal_options.Brokers.Base.{Failure}
use hermes_personal_options.Brokers.Fake.{FakeBroker, get_open_orders}
use hermes_personal_options.Ops.StatusReport.{OrderView}
use hermes_personal_options.Ops.ControlPlane.{
  halt_new_entries, resume_new_entries, flatten_paper_only, Event, audit_artifact,
  kill_switch_state, other_record, ControlPlane, Authorization, append_event, authorization_problem,
  latest_switch, current_kill_switch, new_entries_allowed, halt, resume, cancel_each,
  finish_flatten, flatten, in_paper_mode, status_command, show_orders, record_command_rejection,
  Command, operator_reason,
}
use hermes_personal_options.Ops.ControlPlane.Audit.{
  count_audits, audit_recorded, require_human_refused, require_human_met, once, unchanged,
}
use hermes_personal_options.Ops.ControlPlane.Halt.{
  Noted, Switched, halt_refused, halt_met, resume_refused, resume_met, status-Noted, orders-Noted,
  rejection-Noted, refuse-Noted,
}

latest_switch-append :
    (found : Option KillSwitchState) (xs ys : List Event)
    → latest_switch found (xs ++ ys) ≡ latest_switch (latest_switch found xs) ys
latest_switch-append found [] ys = refl
latest_switch-append found (audit_artifact a ∷ xs) ys = latest_switch-append found xs ys
latest_switch-append found (kill_switch_state k ∷ xs) ys = latest_switch-append (some k) xs ys
latest_switch-append found (other_record r ∷ xs) ys = latest_switch-append found xs ys

-- The switch after an artifact is the one before.
Noted-switch :
    (c after : ControlPlane) → Noted c after → current_kill_switch after ≡ current_kill_switch c
unfolding current_kill_switch
Noted-switch c after (b, a, same) =
    ap (λ (d : ControlPlane). latest_switch none d.store) (sym same)
    ∙ latest_switch-append none c.store (audit_artifact a ∷ [])

allowed-by_switch :
    (c after : ControlPlane)
    → current_kill_switch after ≡ current_kill_switch c
    → new_entries_allowed after ≡ new_entries_allowed c
unfolding new_entries_allowed
allowed-by_switch c after h = rw (h, new_entries_allowed) refl

Switched-switch :
    (c after : ControlPlane) (a : AuditArtifact) (k : KillSwitchState)
    → append_event (append_event c (audit_artifact a)) (kill_switch_state k) ≡ after
    → current_kill_switch after ≡ some k
unfolding current_kill_switch
Switched-switch c after a k same =
    ap (λ (d : ControlPlane). latest_switch none d.store) (sym same)
    ∙ latest_switch-append none (c.store ++ audit_artifact a ∷ []) (kill_switch_state k ∷ [])

Switched-allowed :
    (halted : Bool) (c after : ControlPlane)
    → Switched halted c after
    → new_entries_allowed after ≡ not halted
unfolding new_entries_allowed
Switched-allowed halted c after (a, k, state, same) =
    rw (Switched-switch c after a k same, new_entries_allowed) (ap not state)

Noted-audits :
    (stamp : AwareDateTime → String) (c after : ControlPlane)
    → Noted c after
    → count_audits after.store ≡ suc (count_audits c.store)
Noted-audits stamp c after (b, a, same) =
    ap (λ (d : ControlPlane). count_audits d.store) (sym same) ∙ once stamp c.store a

Switched-audits :
    (stamp : AwareDateTime → String) (halted : Bool) (c after : ControlPlane)
    → Switched halted c after
    → count_audits after.store ≡ suc (count_audits c.store)
Switched-audits stamp halted c after (a, k, state, same) =
    ap (λ (d : ControlPlane). count_audits d.store) (sym same)
    ∙ unchanged stamp (c.store ++ audit_artifact a ∷ []) k
    ∙ once stamp c.store a

module _ (stamp : AwareDateTime → String) (failure_text : Failure → String) where
  finish-Noted :
      (c : ControlPlane) (now : AwareDateTime) (run : Result Failure (List OrderView) × FakeBroker)
      → Noted c ((finish_flatten stamp failure_text c now run).1)
  unfolding is_refusal upper_is
  finish-Noted c now (ok fills, b) =
      rw
        (audit_recorded stamp (record c { broker = some b }) flatten_paper_only "FLATTEN" now
          (operator_flatten_command ∷ []) _ refl)
        (some b, _, refl)
  finish-Noted c now (err e, b) = refuse-Noted stamp c (some b) now _ _

  flatten-Noted :
      (c : ControlPlane) (auth : Authorization) (now : AwareDateTime)
      → Noted c ((flatten stamp failure_text c auth now).1)
  unfolding flatten
  flatten-Noted c auth now = elim (Option-cases (authorization_problem auth flatten_paper_only)) [
    | inr (problem, h) ↦
        rw (require_human_refused stamp c auth flatten_paper_only now problem h refl)
          (c.broker, _, refl)
    | inl h ↦
        rw (require_human_met stamp c auth flatten_paper_only now h)
          (elim (Bool-cases (in_paper_mode c.broker_mode)) [
            | inr other ↦ rw other (refuse-Noted stamp c c.broker now _ _)
            | inl paper ↦ rw paper (elim (Option-cases c.broker) [
              | inl absent ↦ rw absent (refuse-Noted stamp c c.broker now _ _)
              | inr (b, there) ↦
                  rw there (finish-Noted c now (cancel_each b (get_open_orders b) now))
            ])
          ])
  ]

-- One command of the operator. The Boolean says that it is a resume that its authorization permits.
pub data Step (stamp : AwareDateTime → String) (failure_text : Failure → String)
    : Bool → ControlPlane → ControlPlane → Type 0 where
  halting :
      {c after : ControlPlane} (auth : Authorization) (rearm_mode : ReArmMode) (note : String)
      (now : AwareDateTime)
      → (halt stamp c auth rearm_mode note now).1 ≡ after
      → Step stamp failure_text false c after
  resuming :
      {permitted : Bool} {c after : ControlPlane} (auth : Authorization) (note : String)
      (now : AwareDateTime)
      → is_absent (authorization_problem auth resume_new_entries) ≡ permitted
      → (resume stamp c auth note now).1 ≡ after
      → Step stamp failure_text permitted c after
  flattening :
      {c after : ControlPlane} (auth : Authorization) (now : AwareDateTime)
      → (flatten stamp failure_text c auth now).1 ≡ after
      → Step stamp failure_text false c after
  reading :
      {c after : ControlPlane} (now : AwareDateTime)
      → (status_command stamp c now).1 ≡ after
      → Step stamp failure_text false c after
  listing :
      {c after : ControlPlane} (now : AwareDateTime)
      → (show_orders stamp c now).1 ≡ after
      → Step stamp failure_text false c after
  rejecting :
      {c after : ControlPlane} (issued : Command) (detail : String) (now : AwareDateTime)
      → is_empty (operator_reason issued) ≡ false
      → (record_command_rejection stamp c issued detail now).1 ≡ after
      → Step stamp failure_text false c after

-- Commands in a row, none of them a permitted resume, and records of others in between.
pub data Run (stamp : AwareDateTime → String) (failure_text : Failure → String)
    : ControlPlane → ControlPlane → Type 0 where
  stop : {c : ControlPlane} → Run stamp failure_text c c
  stepping :
      {c next after : ControlPlane}
      → Step stamp failure_text false c next
      → Run stamp failure_text next after
      → Run stamp failure_text c after
  appending :
      {c after : ControlPlane} (r : String)
      → Run stamp failure_text (append_event c (other_record r)) after
      → Run stamp failure_text c after

Noted-to : (c : ControlPlane) {x after : ControlPlane} → x ≡ after → Noted c x → Noted c after
Noted-to c same (b, a, h) = (b, a, h ∙ same)

Switched-to :
    (halted : Bool) (c : ControlPlane) {x after : ControlPlane}
    → x ≡ after
    → Switched halted c x
    → Switched halted c after
Switched-to halted c same (a, k, state, h) = (a, k, state, h ∙ same)

-- What a step leaves: an artifact, and perhaps a state of the switch behind it.
Step-leaves :
    {stamp : AwareDateTime → String} {failure_text : Failure → String} {permitted : Bool}
    {c after : ControlPlane}
    → Step stamp failure_text permitted c after
    → Noted c after ⊎ (halted : Bool) × (halted ≡ not permitted) × Switched halted c after
Step-leaves {stamp} {c = c} (halting auth rearm_mode note now same) =
    elim (Option-cases (authorization_problem auth halt_new_entries)) [
      | inl met ↦
          inr (true, refl, Switched-to true c same (halt_met stamp c auth rearm_mode note now met))
      | inr (problem, h) ↦
          inl (Noted-to c same (halt_refused stamp c auth rearm_mode note problem now h))
    ]
Step-leaves {stamp} {c = c} (resuming auth note now met? same) =
    elim (Option-cases (authorization_problem auth resume_new_entries)) [
      | inl met ↦ inr (
        false,
        ap not (sym (ap is_absent met)) ∙ ap not met?,
        Switched-to false c same (resume_met stamp c auth note now met),
      )
      | inr (problem, h) ↦ inl (Noted-to c same (resume_refused stamp c auth note problem now h))
    ]
Step-leaves {stamp} {failure_text} {c = c} (flattening auth now same) =
    inl (Noted-to c same (flatten-Noted stamp failure_text c auth now))
Step-leaves {stamp} {c = c} (reading now same) = inl (Noted-to c same (status-Noted stamp c now))
Step-leaves {stamp} {c = c} (listing now same) = inl (Noted-to c same (orders-Noted stamp c now))
Step-leaves {stamp} {c = c} (rejecting issued detail now reason same) =
    inl (Noted-to c same (rejection-Noted stamp c issued detail now reason))

-- For every command of the model (halt, resume, flatten, status, open orders, and the rejection of a
-- command that changes something before it runs), whether it is done, refused for want of its authorization or of paper mode, or
-- stopped by the broker: the store then holds exactly one audit artifact more.
pub Step-Audited :
    {stamp : AwareDateTime → String} {failure_text : Failure → String} {permitted : Bool}
    {c after : ControlPlane}
    → Step stamp failure_text permitted c after
    → count_audits after.store ≡ suc (count_audits c.store)
Step-Audited {stamp} {c = c} {after = after} step = elim (Step-leaves step) [
  | inl noted ↦ Noted-audits stamp c after noted
  | inr (halted, same, switched) ↦ Switched-audits stamp halted c after switched
]

-- A command other than a permitted resume does not open a closed switch.
Step-Closed :
    {stamp : AwareDateTime → String} {failure_text : Failure → String} {c after : ControlPlane}
    → Step stamp failure_text false c after
    → new_entries_allowed c ≡ false
    → new_entries_allowed after ≡ false
Step-Closed {c = c} {after = after} step closed = elim (Step-leaves step) [
  | inl noted ↦ allowed-by_switch c after (Noted-switch c after noted) ∙ closed
  | inr (halted, same, switched) ↦ Switched-allowed halted c after switched ∙ ap not same
]

other_record-switch :
    (c : ControlPlane) (r : String)
    → current_kill_switch (append_event c (other_record r)) ≡ current_kill_switch c
unfolding current_kill_switch
other_record-switch c r = latest_switch-append none c.store (other_record r ∷ [])

Run-Closed :
    {stamp : AwareDateTime → String} {failure_text : Failure → String} {c after : ControlPlane}
    → Run stamp failure_text c after
    → new_entries_allowed c ≡ false
    → new_entries_allowed after ≡ false
Run-Closed stop closed = closed
Run-Closed (stepping step run) closed = Run-Closed run (Step-Closed step closed)
Run-Closed {c = c} (appending r run) closed =
    Run-Closed run
      (allowed-by_switch c (append_event c (other_record r)) (other_record-switch c r) ∙ closed)

-- After a halt that its authorization permits, new entries stay forbidden through every run of further
-- commands and of records of other parts, as long as no resume with its own authorization is among
-- them.
pub halt-Closed :
    {stamp : AwareDateTime → String} {failure_text : Failure → String} {after : ControlPlane}
    (c : ControlPlane) (auth : Authorization) (rearm_mode : ReArmMode) (note : String)
    (now : AwareDateTime)
    → authorization_problem auth halt_new_entries ≡ none
    → Run stamp failure_text ((halt stamp c auth rearm_mode note now).1) after
    → new_entries_allowed after ≡ false
halt-Closed {stamp} c auth rearm_mode note now met run = Run-Closed run (
    Switched-allowed true c ((halt stamp c auth rearm_mode note now).1)
      (halt_met stamp c auth rearm_mode note now met))
