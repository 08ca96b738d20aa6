-- ===== src/Schemas/Protection.antt =====
-- schemas/protection_state.py and schemas/event_blackout.py.
use hermes_personal_options.Common.{
  ℕ, ◌*◌, Bool, ◌&&◌, not, Option, none, some, List, any, all, if◌then◌else◌,
}
use hermes_personal_options.Time.{AwareDateTime, before, not_after, plus_us, us_per_minute}
use hermes_personal_options.Schemas.Enums.{
  ReasonCode, protection_hierarchy_violation, event_blackout_active, MacroEvent, cpi_release,
  nfp_release, fed_chair_speech,
}

pub record ProtectionState : Type 0 where
  pub long_leg_confirmed : Bool
  pub broker_native_stop_present : Bool
  pub agent_managed_stop_only : Bool
  pub is_emergency_close : Bool

unfoldable pub protection_rejection_reason : ProtectionState → Option ReasonCode
protection_rejection_reason p =
    if p.is_emergency_close
    then none
    else if not p.long_leg_confirmed
    then some protection_hierarchy_violation
    else if p.agent_managed_stop_only
    then some protection_hierarchy_violation
    else none

-- `_agent_stop_only_forbidden`
unfoldable pub protection_valid : ProtectionState → Bool
protection_valid p =
    not (p.agent_managed_stop_only && not p.long_leg_confirmed && not p.is_emergency_close)

pub record MultiLegPlan : Type 0 where
  pub broker_confirms_atomic_combo : Bool
  pub legging : Bool
  pub long_leg_first : Bool

-- The short leg goes first, with no atomic combo.
abbrev short_leg_first : MultiLegPlan → Bool
short_leg_first m = not m.broker_confirms_atomic_combo && m.legging && not m.long_leg_first

unfoldable pub multi_leg_rejection_reason : MultiLegPlan → Option ReasonCode
multi_leg_rejection_reason m =
    if short_leg_first m then some protection_hierarchy_violation else none

-- `_short_leg_first_forbidden`
unfoldable pub multi_leg_valid : MultiLegPlan → Bool
multi_leg_valid m = not (short_leg_first m)

pub record EventBlackout : Type 0 where
  pub event : MacroEvent
  pub window_start : AwareDateTime
  pub window_end : AwareDateTime

-- POST_RELEASE_BLOCK_MIN and FED_SPEECH_TRAILING_MIN.
abbrev pub trailing_minutes : MacroEvent → ℕ
trailing_minutes cpi_release = 30
trailing_minutes nfp_release = 30
trailing_minutes fed_chair_speech = 15
trailing_minutes _ = 0

unfoldable pub effective_block_end : EventBlackout → AwareDateTime
effective_block_end b = plus_us b.window_end (trailing_minutes b.event * us_per_minute)

unfoldable pub is_active : AwareDateTime → EventBlackout → Bool
unfolding effective_block_end
is_active as_of b = not_after b.window_start as_of && not_after as_of (effective_block_end b)

-- `_window_ordered`
unfoldable pub blackout_valid : EventBlackout → Bool
blackout_valid b = not (before b.window_end b.window_start)

pub record EventBlackoutCalendar : Type 0 where
  pub blackouts : List EventBlackout

unfoldable pub active_reason_as_of : EventBlackoutCalendar → AwareDateTime → Option ReasonCode
active_reason_as_of calendar as_of =
    if any (is_active as_of) calendar.blackouts then some event_blackout_active else none

unfoldable pub calendar_valid : EventBlackoutCalendar → Bool
calendar_valid calendar = all blackout_valid calendar.blackouts
