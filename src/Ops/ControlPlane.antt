-- ===== src/Ops/ControlPlane.antt =====
-- ops/control_plane.py: the commands of the human operator, over an append-only store and a fake
-- broker. `stamp` is the text of a clock reading in an artifact's id. An appended record is what the
-- store gives back later. The commands cancel-open-orders,
-- show-positions, show-last-decision and export-audit are not part of this model.
pub mod Authority
pub mod Identity
pub mod Audit
pub mod Halt
pub mod Run
use Prim.Native.String.{◌++◌ as append}
use hermes_personal_options.Common.{
  ℕ, suc, Bool, true, false, not, ◌&&◌, Option, none, some, List, [], ◌∷◌, ◌++◌, Result, ok, err,
  ◌>>=◌, String, str_eq, length, ◌==◌, map, if◌then◌else◌,
}
use hermes_personal_options.Common.Text.{show_ℕ}
use hermes_personal_options.Time.{AwareDateTime}
use hermes_personal_options.Schemas.Enums.{
  ReasonCode, ReArmMode, operator_halt_command, operator_resume_command, operator_cancel_command,
  operator_flatten_command,
}
use hermes_personal_options.Schemas.ReasonText.{reason_value}
use hermes_personal_options.Schemas.Model.{ModelError, construct}
use hermes_personal_options.Schemas.Audit.{AuditArtifact, artifact_valid}
use hermes_personal_options.Schemas.KillSwitch.{KillSwitchState, kill_switch_valid}
use hermes_personal_options.Schemas.BrokerSubmission.{BrokerOrderId}
use hermes_personal_options.Brokers.Base.{BrokerFill, Failure}
use hermes_personal_options.Ops.StatusReport.{
  StatusReport, OpenOrdersReport, FlattenReport, OrderView, order_view, flatten_report,
}
use hermes_personal_options.Brokers.Fake.{FakeBroker, cancel_order, get_open_orders}
use hermes_personal_options.Brokers.Paper.{BrokerMode, is_paper_mode}

pub data Command : Type 0 where
  status halt_new_entries resume_new_entries flatten_paper_only cancel_open_orders show_open_orders
        show_positions show_last_decision export_audit :
      Command

abbrev pub command_name : Command → String
command_name status = "status"
command_name halt_new_entries = "halt-new-entries"
command_name resume_new_entries = "resume-new-entries"
command_name flatten_paper_only = "flatten-paper-only"
command_name cancel_open_orders = "cancel-open-orders"
command_name show_open_orders = "show-open-orders"
command_name show_positions = "show-positions"
command_name show_last_decision = "show-last-decision"
command_name export_audit = "export-audit"

-- `_OPERATOR_REASON_BY_COMMAND`, of the commands that change something.
abbrev pub operator_reason : Command → List ReasonCode
operator_reason halt_new_entries = operator_halt_command ∷ []
operator_reason resume_new_entries = operator_resume_command ∷ []
operator_reason cancel_open_orders = operator_cancel_command ∷ []
operator_reason flatten_paper_only = operator_flatten_command ∷ []
operator_reason _ = []

-- What the store holds: the records that this module reads, and all others.
pub data Event : Type 0 where
  audit_artifact : AuditArtifact → Event
  kill_switch_state : KillSwitchState → Event
  other_record : String → Event

pub record ControlPlane : Type 0 where
  pub store : List Event
  pub broker : Option FakeBroker
  pub broker_mode : Option BrokerMode

pub data OperatorError : Type 0 where
  authority_error confirmation_error mode_error broker_unavailable invalid_record : OperatorError
  broker_failure : Failure → OperatorError

-- A call answers, or raises, and in both cases leaves a control plane.
abbrev pub Outcome : Type 0 → Type 0
Outcome A = Result OperatorError A × ControlPlane

infixl 5 ◌and_then◌
abbrev pub ◌and_then◌ : {A B : Type 0} → Outcome A → (A → ControlPlane → Outcome B) → Outcome B
(ok a, c) and_then next = next a c
(err e, c) and_then next = (err e, c)

-- An object handed in as authorization: the name of its type, and what the registry binds it to.
pub record Authorization : Type 0 where
  pub type_name : String
  pub bound : Option Command

-- `confirm_human`
unfoldable pub confirm_human : Command → String → String → Result OperatorError Authorization
confirm_human command typed expected =
    if not (str_eq typed expected)
    then err confirmation_error
    else ok (record { type_name = "HumanAuthorization"; bound = some command })

abbrev pub command_ordinal : Command → ℕ
command_ordinal status = 0
command_ordinal halt_new_entries = 1
command_ordinal resume_new_entries = 2
command_ordinal flatten_paper_only = 3
command_ordinal cancel_open_orders = 4
command_ordinal show_open_orders = 5
command_ordinal show_positions = 6
command_ordinal show_last_decision = 7
command_ordinal export_audit = 8

abbrev pub same_command : Command → Command → Bool
same_command a b = command_ordinal a == command_ordinal b

abbrev pub append_event : ControlPlane → Event → ControlPlane
append_event c e = record c { store = c.store ++ e ∷ [] }

abbrev quoted : Command → String
quoted command = append "'" (append (command_name command) "'")

-- What is wrong with an authorization, if anything is.
abbrev pub authorization_problem : Authorization → Command → Option String
authorization_problem auth command = elim auth.bound [
  | none ↦ some (
      append "got " (
        append auth.type_name
          " — strategy/research agents, prose, and mutated or forged tokens cannot issue control-plane commands (§14)"))
  | some bound ↦
      if same_command bound command
      then none
      else some (
          append "authorization was issued for "
            (append (quoted bound) (append ", not " (quoted command))))
]

-- `detail or command`
abbrev pub detail_or : String → Command → String
detail_or detail command = if str_eq detail "" then command_name command else detail

-- The latest state of the switch in the store.
abbrev pub latest_switch : Option KillSwitchState → List Event → Option KillSwitchState
latest_switch found [] = found
latest_switch found (kill_switch_state k ∷ events) = latest_switch (some k) events
latest_switch found (audit_artifact a ∷ events) = latest_switch found events
latest_switch found (other_record r ∷ events) = latest_switch found events

unfoldable pub current_kill_switch : ControlPlane → Option KillSwitchState
current_kill_switch c = latest_switch none c.store

unfoldable pub new_entries_allowed : ControlPlane → Bool
unfolding current_kill_switch
new_entries_allowed c = elim (current_kill_switch c) [ none ↦ true | some k ↦ not k.halted ]

-- The halt that a resume clears, in words.
abbrev pub cleared_text : Option KillSwitchState → String
cleared_text none = "none"
cleared_text (some k) = elim k.reason_code [
  | none ↦ "none"
  | some code ↦ if k.halted then reason_value code else "none"
]

-- The details of the artifacts of a halt and of a resume.
abbrev pub halt_detail : String → String
halt_detail note = if str_eq note "" then "operator halt-new-entries" else note

abbrev pub resume_detail : Option KillSwitchState → String → String
resume_detail current note =
    if str_eq note ""
    then append "operator resume-new-entries (cleared: " (append (cleared_text current) ")")
    else note

abbrev status_of : ControlPlane → AwareDateTime → Option KillSwitchState → StatusReport
status_of c now none = record {
  halted = false;
  reason_code = none;
  rearm_mode = none;
  kill_switch_command_id = none;
  broker_mode = c.broker_mode;
  total_audit_events = length c.store;
  generated_at = now;
}
status_of c now (some k) = record {
  halted = k.halted;
  reason_code = k.reason_code;
  rearm_mode = k.rearm_mode;
  kill_switch_command_id = some k.command_id;
  broker_mode = c.broker_mode;
  total_audit_events = length c.store;
  generated_at = now;
}

-- str(broker_mode)
abbrev pub mode_text : Option BrokerMode → String
mode_text none = "None"
mode_text (some BrokerMode.paper) = "paper"
mode_text (some BrokerMode.no_broker) = "none"
mode_text (some BrokerMode.live_readonly) = "live_readonly"

abbrev pub in_paper_mode : Option BrokerMode → Bool
in_paper_mode none = false
in_paper_mode (some mode) = is_paper_mode mode

-- The open orders, if there is a broker.
abbrev pub open_orders : Option FakeBroker → List BrokerFill
open_orders none = []
open_orders (some b) = get_open_orders b

-- The open orders are cancelled in turn, until one raises.
unfoldable pub cancel_each :
    FakeBroker → List BrokerFill → AwareDateTime → Result Failure (List OrderView) × FakeBroker
cancel_each b [] now = (ok [], b)
cancel_each b (f ∷ fills) now = elim (cancel_order b f.broker_order_id now) [
  | err e ↦ (err e, b)
  | ok (g, after) ↦
      let (rest, final) = cancel_each after fills now in
      (elim rest [ ok done ↦ ok (order_view g ∷ done) | err e ↦ err e ], final)
]

module _ (stamp : AwareDateTime → String) where
  -- f"{command}:{count}:{now}"
  abbrev pub new_artifact_id : ControlPlane → Command → AwareDateTime → String
  new_artifact_id c command now =
      append (command_name command)
        (append ":" (append (show_ℕ (length c.store)) (append ":" (stamp now))))

  abbrev pub artifact_for :
      ControlPlane → Command → String → AwareDateTime → List ReasonCode → String → AuditArtifact
  artifact_for c command decision now reason_codes detail = record {
    artifact_id = new_artifact_id c command now;
    created_at = now;
    decision = decision;
    reason_codes = reason_codes;
    detail = detail_or detail command;
  }

  -- `_audit`
  unfoldable pub audit :
      ControlPlane
      → Command
      → String
      → AwareDateTime
      → List ReasonCode
      → String
      → Outcome AuditArtifact
  audit c command decision now reason_codes detail =
      elim (construct artifact_valid (artifact_for c command decision now reason_codes detail)) [
        | ok a ↦ (ok a, append_event c (audit_artifact a))
        | err e ↦ (err invalid_record, c)
      ]

  -- A rejection is audited, and then the error is raised.
  abbrev pub refuse :
      {A : Type 0} → ControlPlane → Command → AwareDateTime → String → OperatorError → Outcome A
  refuse c command now detail error =
      audit c command "REJECT" now (operator_reason command) detail and_then λ a after.
      (err error, after)

  -- `_require_human`
  unfoldable pub require_human :
      ControlPlane → Authorization → Command → AwareDateTime → Outcome (Unit {0})
  require_human c auth command now = elim (authorization_problem auth command) [
    | none ↦ (ok tt, c)
    | some problem ↦ refuse c command now (append "unauthorized: " problem) authority_error
  ]

  -- `mint_kill_switch_state`, and its record.
  abbrev pub record_switch : ControlPlane → KillSwitchState → Outcome KillSwitchState
  record_switch c k = elim (construct kill_switch_valid k) [
    | ok minted ↦ (ok minted, append_event c (kill_switch_state minted))
    | err e ↦ (err invalid_record, c)
  ]

  abbrev pub halted_switch : ReArmMode → String → AwareDateTime → AuditArtifact → KillSwitchState
  halted_switch rearm_mode note now a = record {
    halted = true;
    reason_code = some operator_halt_command;
    rearm_mode = some rearm_mode;
    command_id = a.artifact_id;
    created_at = now;
    note = note;
  }

  abbrev pub resumed_switch : String → AwareDateTime → AuditArtifact → KillSwitchState
  resumed_switch note now a = record {
    halted = false;
    reason_code = none;
    rearm_mode = none;
    command_id = a.artifact_id;
    created_at = now;
    note = note;
  }

  unfoldable pub halt :
      ControlPlane → Authorization → ReArmMode → String → AwareDateTime → Outcome KillSwitchState
  halt c auth rearm_mode note now = require_human c auth halt_new_entries now and_then λ _ c1.
      audit c1 halt_new_entries "HALT" now (operator_halt_command ∷ []) (halt_detail note)
      and_then λ a c2. record_switch c2 (halted_switch rearm_mode note now a)

  unfoldable pub resume :
      ControlPlane → Authorization → String → AwareDateTime → Outcome KillSwitchState
  resume c auth note now = require_human c auth resume_new_entries now and_then λ _ c1.
      audit c1 resume_new_entries "RESUME" now (operator_resume_command ∷ [])
        (resume_detail (current_kill_switch c1) note)
      and_then λ a c2. record_switch c2 (resumed_switch note now a)

  unfoldable pub status_command : ControlPlane → AwareDateTime → Outcome StatusReport
  status_command c now = audit c status "READ" now [] "" and_then λ _ after.
      (ok (status_of after now (current_kill_switch after)), after)

  unfoldable pub show_orders : ControlPlane → AwareDateTime → Outcome OpenOrdersReport
  show_orders c now = audit c show_open_orders "READ" now [] "" and_then λ _ after. (
    ok (record { orders = map order_view (open_orders after.broker); generated_at = now }),
    after,
  )

  -- `record_command_rejection`
  unfoldable pub record_command_rejection :
      ControlPlane → Command → String → AwareDateTime → Outcome AuditArtifact
  record_command_rejection c command detail now =
      audit c command "REJECT" now (operator_reason command) detail

  -- `failure_text` is the name and the text of an exception.
  module _ (failure_text : Failure → String) where
    abbrev pub finish_flatten :
        ControlPlane
        → AwareDateTime
        → Result Failure (List OrderView) × FakeBroker
        → Outcome FlattenReport
    finish_flatten c now (ok fills, b) =
        audit (record c { broker = some b }) flatten_paper_only "FLATTEN" now
          (operator_flatten_command ∷ [])
          (append "paper flatten: cancelled "
            (append (show_ℕ (length fills)) " order(s), 0 position(s) remain for managed exit"))
        and_then λ _ after. (ok (flatten_report fills now), after)
    finish_flatten c now (err e, b) =
        refuse (record c { broker = some b }) flatten_paper_only now
          (append "paper flatten failed at broker: " (failure_text e)) (broker_failure e)

    -- The fake brokers report no positions.
    unfoldable pub flatten : ControlPlane → Authorization → AwareDateTime → Outcome FlattenReport
    flatten c auth now = require_human c auth flatten_paper_only now and_then λ _ c1.
        if not (in_paper_mode c1.broker_mode)
        then refuse c1 flatten_paper_only now
            (append "flatten refused: broker_mode="
              (append (mode_text c1.broker_mode) " is not PAPER"))
            mode_error
        else elim c1.broker [
          | none ↦
              refuse c1 flatten_paper_only now "no broker adapter configured" broker_unavailable
          | some b ↦ finish_flatten c1 now (cancel_each b (get_open_orders b) now)
        ]
