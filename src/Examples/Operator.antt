-- ===== src/Examples/Operator.antt =====
-- The operator's commands on one store: a halt, a status, a refused resume and a record of another part.
use hermes_personal_options.Common.{arith, ◌↔◌, ◌≡◌, refl, false, none, some, [], suc, String}
use hermes_personal_options.Time.{AwareDateTime}
use hermes_personal_options.Schemas.Enums.{human_only}
use hermes_personal_options.Brokers.Base.{Failure}
use hermes_personal_options.Ops.ControlPlane.{
  Command, ControlPlane, Authorization, confirm_human, authorization_problem, halt, resume,
  status_command, new_entries_allowed, append_event, new_artifact_id, other_record,
}
use hermes_personal_options.Ops.ControlPlane.Authority.{confirm_human-Permits}
use hermes_personal_options.Ops.ControlPlane.Identity.{new_artifact_id-distinct}
use hermes_personal_options.Ops.ControlPlane.Audit.{count_audits}
use hermes_personal_options.Ops.ControlPlane.Run.{
  stop, stepping, appending, resuming, reading, Step-Audited, halt-Closed,
}
use hermes_personal_options.Examples.Data.{half_past_ten, seconds_later}

abbrev stamp : AwareDateTime → String
stamp t = "20260105T103000000000"

abbrev failure_text : Failure → String
failure_text e = "BrokerError: order not found"

abbrev halt_token : Authorization
halt_token = record { type_name = "HumanAuthorization"; bound = some Command.halt_new_entries }

abbrev phrase : String
phrase = "HALT NEW ENTRIES"

abbrev prose : Authorization
prose = record { type_name = "str"; bound = none }

abbrev quiet : ControlPlane
quiet = record { store = []; broker = none; broker_mode = none }

abbrev halted : ControlPlane
halted = (halt stamp quiet halt_token human_only "" half_past_ten).1

abbrev watched : ControlPlane
watched = (status_command stamp halted (seconds_later 5)).1

abbrev asked : ControlPlane
asked = (resume stamp watched prose "" (seconds_later 9)).1

confirm_human-Permits_example :
    (phrase ≡ phrase)
    × ((issued : Command)
        → authorization_problem halt_token issued ≡ none ↔ Command.halt_new_entries ≡ issued)
unfolding confirm_human
confirm_human-Permits_example =
    confirm_human-Permits Command.halt_new_entries phrase phrase halt_token refl

Step-Audited_example : count_audits asked.store ≡ suc (count_audits watched.store)
Step-Audited_example =
    Step-Audited {stamp = stamp} {failure_text = failure_text}
      (resuming prose "" (seconds_later 9) refl refl)

halt-Closed_example : new_entries_allowed (append_event asked (other_record "ORDER_TICKET")) ≡ false
halt-Closed_example =
    halt-Closed {stamp = stamp} {failure_text = failure_text} quiet halt_token human_only ""
      half_past_ten refl
      (stepping (reading (seconds_later 5) refl)
        (stepping (resuming prose "" (seconds_later 9) refl refl) (appending "ORDER_TICKET" stop)))

abbrev with_ticket : ControlPlane
with_ticket = append_event quiet (other_record "ORDER_TICKET")

new_artifact_id-distinct_example : ¬ (
    new_artifact_id stamp quiet Command.status half_past_ten
    ≡ new_artifact_id stamp with_ticket Command.status half_past_ten)
new_artifact_id-distinct_example =
    new_artifact_id-distinct stamp quiet with_ticket Command.status half_past_ten half_past_ten
      (λ t u. refl) (omega arith)
