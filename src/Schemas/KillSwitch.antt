-- ===== src/Schemas/KillSwitch.antt =====
-- schemas/kill_switch_state.py: the operator's switch for new entries, at one point in time.
use hermes_personal_options.Common.{
  Bool, not, ◌&&◌, Option, String, str_eq, is_absent, if◌then◌else◌,
}
use hermes_personal_options.Time.{AwareDateTime}
use hermes_personal_options.Schemas.Enums.{ReasonCode, ReArmMode}

pub record KillSwitchState : Type 0 where
  pub halted : Bool
  pub reason_code : Option ReasonCode
  pub rearm_mode : Option ReArmMode
  pub command_id : String
  pub created_at : AwareDateTime
  pub note : String

-- The bound of the id, and `_halt_fields_coherent`.
unfoldable pub kill_switch_valid : KillSwitchState → Bool
kill_switch_valid k =
    not (str_eq k.command_id "")
    && (if k.halted
        then not (is_absent k.reason_code) && not (is_absent k.rearm_mode)
        else is_absent k.reason_code && is_absent k.rearm_mode)
