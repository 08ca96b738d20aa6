-- ===== src/Config.antt =====
-- config/app_config.py: the flags of a deployment, how they are read, and which of them may stand together.
pub mod Arming
use hermes_personal_options.Common.{
  Bool, true, false, not, ◌&&◌, ◌||◌, Option, none, some, List, [], ◌∷◌, map, String, Result, ok,
  err, ◌>>=◌, str_eq, if◌then◌else◌,
}
use hermes_personal_options.Common.Dict.{get}
use hermes_personal_options.Common.Text.{codes, same_codes, strip, lower_code}
use hermes_personal_options.Brokers.Paper.{BrokerMode}

pub data AppEnv : Type 0 where
  local vm_shadow vm_paper live_readonly : AppEnv

abbrev pub env_value : AppEnv → String
env_value AppEnv.local = "local"
env_value AppEnv.vm_shadow = "vm_shadow"
env_value AppEnv.vm_paper = "vm_paper"
env_value AppEnv.live_readonly = "live_readonly"

abbrev pub broker_mode_value : BrokerMode → String
broker_mode_value BrokerMode.paper = "paper"
broker_mode_value BrokerMode.no_broker = "none"
broker_mode_value BrokerMode.live_readonly = "live_readonly"

-- A flag that is missing or cannot be read, or flags that contradict each other.
pub data ConfigError : Type 0 where
  unset unreadable contradiction : ConfigError

pub record AppConfig : Type 0 where
  pub app_env : AppEnv
  pub broker_mode : BrokerMode
  pub submission_enabled : Bool
  pub paper_submit_enabled : Bool
  pub live_submit_enabled : Bool
  pub market_data_enabled : Bool
  pub candidate_generation_enabled : Bool
  pub gateway_enabled : Bool
  pub order_ticketing_enabled : Bool
  pub audit_db_path : String

-- `_parse_app_env`
unfoldable pub parse_app_env : Option String → Result ConfigError AppEnv
parse_app_env none = err unset
parse_app_env (some t) =
    if str_eq t "local"
    then ok AppEnv.local
    else if str_eq t "vm_shadow"
    then ok AppEnv.vm_shadow
    else if str_eq t "vm_paper"
    then ok AppEnv.vm_paper
    else if str_eq t "live_readonly"
    then ok AppEnv.live_readonly
    else err unreadable

-- `_parse_broker_mode`
unfoldable pub parse_broker_mode : Option String → Result ConfigError BrokerMode
parse_broker_mode none = err unset
parse_broker_mode (some t) =
    if str_eq t "paper"
    then ok BrokerMode.paper
    else if str_eq t "none"
    then ok BrokerMode.no_broker
    else if str_eq t "live_readonly"
    then ok BrokerMode.live_readonly
    else err unreadable

-- `_parse_bool`; no other character than an ASCII letter is one of the words' letters in lower case.
unfoldable pub parse_bool : Option String → Result ConfigError Bool
parse_bool none = err unset
parse_bool (some t) =
    let normalized = map lower_code (strip (codes t)) in
    if same_codes normalized (codes "true")
    then ok true
    else if same_codes normalized (codes "false")
    then ok false
    else err unreadable

abbrev is_shadow_env : AppEnv → Bool
is_shadow_env AppEnv.vm_shadow = true
is_shadow_env _ = false

abbrev pub is_paper_env : AppEnv → Bool
is_paper_env AppEnv.vm_paper = true
is_paper_env _ = false

abbrev is_live_readonly_env : AppEnv → Bool
is_live_readonly_env AppEnv.live_readonly = true
is_live_readonly_env _ = false

abbrev pub is_paper_broker : BrokerMode → Bool
is_paper_broker BrokerMode.paper = true
is_paper_broker _ = false

abbrev pub is_no_broker : BrokerMode → Bool
is_no_broker BrokerMode.no_broker = true
is_no_broker _ = false

abbrev is_readonly_broker : BrokerMode → Bool
is_readonly_broker BrokerMode.live_readonly = true
is_readonly_broker _ = false

unfoldable pub is_shadow : AppConfig → Bool
is_shadow c = is_shadow_env c.app_env

unfoldable pub is_paper : AppConfig → Bool
is_paper c = is_paper_env c.app_env

unfoldable pub is_live_readonly : AppConfig → Bool
is_live_readonly c = is_live_readonly_env c.app_env

unfoldable pub submission_armed : AppConfig → Bool
submission_armed c = c.submission_enabled && (c.paper_submit_enabled || c.live_submit_enabled)

-- The four flags of the pipeline are on.
abbrev pub pipeline_on : AppConfig → Bool
pipeline_on c =
    c.market_data_enabled && c.candidate_generation_enabled && c.gateway_enabled
    && c.order_ticketing_enabled

-- `_require_shadow_invariants`, and the other three
abbrev env_invariants : AppEnv → AppConfig → Bool
env_invariants AppEnv.vm_shadow c =
    is_no_broker c.broker_mode
    && not c.submission_enabled
    && not c.paper_submit_enabled
    && not c.live_submit_enabled
    && pipeline_on c
env_invariants AppEnv.vm_paper c =
    is_paper_broker c.broker_mode
    && c.submission_enabled
    && c.paper_submit_enabled
    && not c.live_submit_enabled
    && pipeline_on c
env_invariants AppEnv.live_readonly c =
    is_readonly_broker c.broker_mode && not c.submission_enabled && not c.paper_submit_enabled
env_invariants AppEnv.local c = not (is_readonly_broker c.broker_mode)

-- `_fail_closed`
unfoldable pub app_config_valid : AppConfig → Bool
unfolding submission_armed
app_config_valid c =
    not c.live_submit_enabled
    && env_invariants c.app_env c
    && not (is_no_broker c.broker_mode && submission_armed c)
    && not (c.paper_submit_enabled && not c.submission_enabled)
    && not (c.submission_enabled && not (c.paper_submit_enabled || c.live_submit_enabled))
    && not (c.paper_submit_enabled && not (is_paper_broker c.broker_mode))

abbrev pub checked : AppConfig → Result ConfigError AppConfig
checked c = if app_config_valid c then ok c else err contradiction

abbrev default_audit_db_path : String
default_audit_db_path = ".hermes/audit.db"

abbrev path_or_default : Option String → String
path_or_default none = default_audit_db_path
path_or_default (some t) = t

-- `from_env`
unfoldable pub from_env : List (String × String) → Result ConfigError AppConfig
from_env env = do
  app_env ← parse_app_env (get env "APP_ENV")
  broker_mode ← parse_broker_mode (get env "BROKER_MODE")
  submission_enabled ← parse_bool (get env "SUBMISSION_ENABLED")
  paper_submit_enabled ← parse_bool (get env "PAPER_SUBMIT_ENABLED")
  live_submit_enabled ← parse_bool (get env "LIVE_SUBMIT_ENABLED")
  market_data_enabled ← parse_bool (get env "MARKET_DATA_ENABLED")
  candidate_generation_enabled ← parse_bool (get env "CANDIDATE_GENERATION_ENABLED")
  gateway_enabled ← parse_bool (get env "GATEWAY_ENABLED")
  order_ticketing_enabled ← parse_bool (get env "ORDER_TICKETING_ENABLED")
  checked (record {
    app_env = app_env;
    broker_mode = broker_mode;
    submission_enabled = submission_enabled;
    paper_submit_enabled = paper_submit_enabled;
    live_submit_enabled = live_submit_enabled;
    market_data_enabled = market_data_enabled;
    candidate_generation_enabled = candidate_generation_enabled;
    gateway_enabled = gateway_enabled;
    order_ticketing_enabled = order_ticketing_enabled;
    audit_db_path = path_or_default (get env "HERMES_AUDIT_DB");
  })
