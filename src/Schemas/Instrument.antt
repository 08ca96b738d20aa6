-- ===== src/Schemas/Instrument.antt =====
-- schemas/instrument.py, schemas/entry_window.py and schemas/allowed_underlying_policy.py: what may
-- be traded, and when.
use hermes_personal_options.Common.{
  ℕ, Bool, true, false, ◌&&◌, not, Option, none, some, String, str_eq, if◌then◌else◌,
}
use hermes_personal_options.Time.{AwareDateTime, before, not_after}
use hermes_personal_options.Schemas.Enums.{
  Underlying, xsp, spx, ReasonCode, instrument_not_permitted, is_xsp,
}

abbrev pub entry_window_open_ct_min : ℕ
entry_window_open_ct_min = 585

abbrev pub entry_window_close_ct_min : ℕ
entry_window_close_ct_min = 780

pub record Instrument : Type 0 where
  pub underlying : Underlying

unfoldable pub is_phase_1_eligible : Instrument → Bool
is_phase_1_eligible i = is_xsp i.underlying

pub data PolicySource : Type 0 where
  constitution_config human_approved_config : PolicySource

abbrev is_human_approved : PolicySource → Bool
is_human_approved constitution_config = false
is_human_approved human_approved_config = true

pub record AllowedUnderlyingPolicy : Type 0 where
  pub xsp_enabled : Bool
  pub spx_phase_2_enabled : Bool
  pub policy_version : String
  pub source : PolicySource
  pub approved_by : Option String
  pub effective_at : AwareDateTime
  pub expires_at : Option AwareDateTime

-- `not approved_by`, for an optional text.
abbrev is_blank : Option String → Bool
is_blank none = true
is_blank (some text) = str_eq text ""

-- The bound of the version, and `_provenance_and_window`.
unfoldable pub underlying_policy_valid : AllowedUnderlyingPolicy → Bool
underlying_policy_valid p =
    not (str_eq p.policy_version "")
    && not (is_human_approved p.source && is_blank p.approved_by)
    && not (p.spx_phase_2_enabled && not (is_human_approved p.source))
    && elim p.expires_at [ none ↦ true | some end ↦ not (not_after end p.effective_at) ]

unfoldable pub is_active_as_of : AllowedUnderlyingPolicy → AwareDateTime → Bool
is_active_as_of p as_of =
    if before as_of p.effective_at
    then false
    else elim p.expires_at [ none ↦ true | some end ↦ not (before end as_of) ]

abbrev enabled_reason : Bool → Option ReasonCode
enabled_reason enabled = if enabled then none else some instrument_not_permitted

-- The last return of the source is for an underlying that the enumeration does not have.
abbrev underlying_reason : AllowedUnderlyingPolicy → Underlying → Option ReasonCode
underlying_reason p xsp = enabled_reason p.xsp_enabled
underlying_reason p spx = enabled_reason p.spx_phase_2_enabled

unfoldable pub permission_reason :
    AllowedUnderlyingPolicy → Underlying → AwareDateTime → Option ReasonCode
permission_reason p u as_of =
    if not (is_active_as_of p as_of) then some instrument_not_permitted else underlying_reason p u
