-- ===== src/Storage/SwitchJson.antt =====
-- The JSON of a state of the switch, as `model_dump_json` writes it, the way back, and its way
-- through the store.
use hermes_personal_options.Common.{
  ◌≡◌, refl, sym, ap, ◌∙◌, Bool, true, Option, none, some, String, [], ok, ok-injective,
}
use hermes_personal_options.Time.{AwareDateTime}
use hermes_personal_options.Schemas.Enums.{ReasonCode, ReArmMode, auto_next_session}
use hermes_personal_options.Schemas.EnumText.{reason_of, rearm_mode_of, rearm_mode_value}
use hermes_personal_options.Schemas.ReasonText.{reason_value}
use hermes_personal_options.Schemas.KillSwitch.{KillSwitchState, kill_switch_valid}
use hermes_personal_options.Storage.Json.{Json, null, boolean, text, object, end, field}
use hermes_personal_options.Storage.Models.{
  Codec, StoredEvent, RecordType, kill_switch_state, record_type_for,
}
use hermes_personal_options.Storage.Rehydrate.{or_none, accepted, rehydrate_kill_switch, rebuild}
use hermes_personal_options.Storage.Backend.{Backend, IsLawful}
use hermes_personal_options.Storage.Base.{append, rehydrate}
use hermes_personal_options.Storage.Later.{Later}
use hermes_personal_options.Storage.Provenance.{rehydrate-append}

reason_of-value : (r : ReasonCode) → reason_of (reason_value r) ≡ some r
reason_of-value ReasonCode.price_stale = refl
reason_of-value _ = refl

rearm_mode_of-value : (m : ReArmMode) → rearm_mode_of (rearm_mode_value m) ≡ some m
rearm_mode_of-value auto_next_session = refl
rearm_mode_of-value _ = refl

abbrev reason_json : Option ReasonCode → Json
reason_json none = null
reason_json (some r) = text (reason_value r)

abbrev rearm_json : Option ReArmMode → Json
rearm_json none = null
rearm_json (some m) = text (rearm_mode_value m)

reason_json_read : (o : Option ReasonCode) → or_none reason_of (reason_json o) ≡ ok o
reason_json_read none = refl
reason_json_read (some r) = rw (reason_of-value r) refl

rearm_json_read : (o : Option ReArmMode) → or_none rearm_mode_of (rearm_json o) ≡ ok o
rearm_json_read none = refl
rearm_json_read (some m) = rw (rearm_mode_of-value m) refl

accepted-ok :
    (valid : KillSwitchState → Bool) (k : KillSwitchState)
    → valid k ≡ true
    → accepted valid k ≡ ok k
accepted-ok valid k h = rw (h, accepted) refl

-- `isoformat` is the text of a datetime.
abbrev pub switch_json : (AwareDateTime → String) → KillSwitchState → Json
switch_json isoformat k = object (
    field "halted" (boolean k.halted) (
      field "reason_code" (reason_json k.reason_code) (
        field "rearm_mode" (rearm_json k.rearm_mode) (
          field "command_id" (text k.command_id) (
            field "created_at" (text (isoformat k.created_at)) (field "note" (text k.note) end))))))

-- A valid state of the switch comes back from its JSON as it was, where its time comes back from its
-- text.
pub rehydrate_kill_switch-json :
    (codec : Codec) (isoformat : AwareDateTime → String) (k : KillSwitchState)
    → codec.datetime_of (isoformat k.created_at) ≡ some k.created_at
    → kill_switch_valid k ≡ true
    → rehydrate_kill_switch codec (switch_json isoformat k) ≡ ok k
unfolding rehydrate_kill_switch
rehydrate_kill_switch-json codec isoformat k time valid =
    rw (reason_json_read k.reason_code)
      (rw (rearm_json_read k.rearm_mode) (rw time (accepted-ok kill_switch_valid k valid)))

rebuild-switch :
    (codec : Codec) (isoformat : AwareDateTime → String) (k : KillSwitchState) (payload : String)
    → codec.loads payload ≡ some (switch_json isoformat k)
    → codec.datetime_of (isoformat k.created_at) ≡ some k.created_at
    → kill_switch_valid k ≡ true
    → rebuild codec RecordType.kill_switch_state payload ≡ ok (kill_switch_state k)
unfolding rebuild
rebuild-switch codec isoformat k payload loaded time valid =
    rw loaded (rw (rehydrate_kill_switch-json codec isoformat k time valid) refl)

-- A valid state of the switch that is stored in a state that appends lead to comes back from its row as
-- it was in every later state, through the repository's own reading of its fields and its checks,
-- where json reads back the fields that pydantic has written, and its time comes back from its text.
pub rehydrate-switch :
    (codec : Codec) (B : Backend) (L : IsLawful B) (isoformat : AwareDateTime → String)
    (start s mid after : B.State) (k : KillSwitchState) (created_at recorded_at : AwareDateTime)
    (key : Option String) (e : StoredEvent)
    → B.iter_events start ≡ []
    → Later codec B L start s
    → append codec B s (kill_switch_state k) created_at recorded_at key ≡ (ok e, mid)
    → Later codec B L mid after
    → codec.loads (codec.model_dump_json (kill_switch_state k)) ≡ some (switch_json isoformat k)
    → codec.datetime_of (isoformat k.created_at) ≡ some k.created_at
    → kill_switch_valid k ≡ true
    → rehydrate codec B after e ≡ ok (kill_switch_state k)
unfolding record_type_for
rehydrate-switch codec B L isoformat start s mid after k created_at recorded_at key e empty before
      stored run loaded time valid =
    let payload = codec.model_dump_json (kill_switch_state k) in
    rehydrate-append codec B L start s mid (kill_switch_state k) created_at recorded_at key e empty
      before stored run
      (λ t typed.
        ap (λ u. rebuild codec u payload) (sym (ok-injective typed))
        ∙ rebuild-switch codec isoformat k payload loaded time valid)
