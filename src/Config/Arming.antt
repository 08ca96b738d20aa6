-- ===== src/Config/Arming.antt =====
-- config/app_config.py: which submissions a configuration that exists can arm.
use hermes_personal_options.Common.{
  Bool, true, false, not, ◌&&◌, ◌||◌, List, String, ok, >>=-eq-ok, ◌≡◌, ap, sym, ◌∙◌, Bool-cases,
  inl, inr, arith,
}
use hermes_personal_options.Common.Dict.{get}
use hermes_personal_options.Config.{
  AppEnv, AppConfig, app_config_valid, submission_armed, is_paper_env, is_paper_broker, pipeline_on,
  checked, parse_app_env, parse_broker_mode, parse_bool, from_env,
}

-- The environments in which a submission can be armed.
abbrev may_arm : AppEnv → Bool
may_arm AppEnv.local = true
may_arm AppEnv.vm_paper = true
may_arm _ = false

-- Live submission is off; a submission is armed only with a paper broker, and never in the shadow or the
-- read-only environment; and the paper environment arms it, with the whole pipeline.
abbrev pub is_paper_only : AppConfig → Bool
is_paper_only c =
    not c.live_submit_enabled
    && (not (submission_armed c) || is_paper_broker c.broker_mode)
    && (not (submission_armed c) || may_arm c.app_env)
    && (not (is_paper_env c.app_env) || submission_armed c && pipeline_on c)

app_config_valid-paper_only : (c : AppConfig) → app_config_valid c ≡ true → is_paper_only c ≡ true
unfolding app_config_valid submission_armed
app_config_valid-paper_only c h = ground arith

checked-ok : (c d : AppConfig) → checked c ≡ ok d → app_config_valid d ≡ true
checked-ok c d h = elim (Bool-cases (app_config_valid c)) [
  | inl sound ↦ let same : c ≡ d = cc (h, sound) in ap app_config_valid (sym same) ∙ sound
  | inr unsound ↦ absurd (cc (h, unsound))
]

-- A configuration that the environment gives never enables live submission; it arms submission only with
-- the paper broker, in the environments local and vm_paper; and in vm_paper it arms it, with the whole
-- pipeline on.
pub from_env-paper_only :
    (env : List (String × String)) (c : AppConfig) → from_env env ≡ ok c → is_paper_only c ≡ true
unfolding from_env
from_env-paper_only env c h =
    let (_, _, h1) = >>=-eq-ok (parse_app_env (get env "APP_ENV")) _ h in
    let (_, _, h2) = >>=-eq-ok (parse_broker_mode (get env "BROKER_MODE")) _ h1 in
    let (_, _, h3) = >>=-eq-ok (parse_bool (get env "SUBMISSION_ENABLED")) _ h2 in
    let (_, _, h4) = >>=-eq-ok (parse_bool (get env "PAPER_SUBMIT_ENABLED")) _ h3 in
    let (_, _, h5) = >>=-eq-ok (parse_bool (get env "LIVE_SUBMIT_ENABLED")) _ h4 in
    let (_, _, h6) = >>=-eq-ok (parse_bool (get env "MARKET_DATA_ENABLED")) _ h5 in
    let (_, _, h7) = >>=-eq-ok (parse_bool (get env "CANDIDATE_GENERATION_ENABLED")) _ h6 in
    let (_, _, h8) = >>=-eq-ok (parse_bool (get env "GATEWAY_ENABLED")) _ h7 in
    let (_, _, h9) = >>=-eq-ok (parse_bool (get env "ORDER_TICKETING_ENABLED")) _ h8 in
    app_config_valid-paper_only c (checked-ok _ c h9)
