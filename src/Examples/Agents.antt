-- ===== src/Examples/Agents.antt =====
-- Grants, roles, paths and flags.
use hermes_personal_options.Common.{true, false, List, [], ◌∷◌, String, ok, is_ok, ◌≡◌, refl}
use hermes_personal_options.Brokers.Paper.{BrokerMode}
use hermes_personal_options.Agents.Permissions.{
  ToolName, AgentToolPolicy, deployed_agent_service, agent_tool_policy,
}
use hermes_personal_options.Agents.Roles.{AgentRole}
use hermes_personal_options.Agents.Grants.{
  is_grantable, agent_tool_policy-exact, IsLeast, policy_for_role-IsLeast,
}
use hermes_personal_options.Agents.Paths.{assert_write_path_allowed}
use hermes_personal_options.Agents.WriteGuard.{keeps_out, assert_write_path_allowed-first_part}
use hermes_personal_options.Config.{
  AppEnv, AppConfig, from_env, parse_app_env, parse_broker_mode, parse_bool, app_config_valid,
  submission_armed,
}
use hermes_personal_options.Config.Arming.{is_paper_only, from_env-paper_only}

abbrev build_grant : List ToolName
build_grant = ToolName.read ∷ ToolName.bash ∷ []

agent_tool_policy-exact_example :
    (is_ok (agent_tool_policy deployed_agent_service build_grant)
      ≡ is_grantable deployed_agent_service build_grant)
    × ((p : AgentToolPolicy)
        → agent_tool_policy deployed_agent_service build_grant ≡ ok p
        → record { mode = deployed_agent_service; allowed_tools = build_grant } ≡ p)
agent_tool_policy-exact_example = agent_tool_policy-exact deployed_agent_service build_grant

policy_for_role-IsLeast_example : (p : AgentToolPolicy) × IsLeast AgentRole.candidate_explanation p
policy_for_role-IsLeast_example = policy_for_role-IsLeast AgentRole.candidate_explanation

assert_write_path_allowed-first_part_example :
    is_ok (assert_write_path_allowed "./SCHEMAS\\enums.py") ≡ keeps_out "./SCHEMAS\\enums.py"
assert_write_path_allowed-first_part_example =
    assert_write_path_allowed-first_part "./SCHEMAS\\enums.py"

abbrev paper_env : List (String × String)
paper_env =
    ("APP_ENV", "vm_paper")
    ∷ ("BROKER_MODE", "paper")
    ∷ ("SUBMISSION_ENABLED", "true")
    ∷ ("PAPER_SUBMIT_ENABLED", " True ")
    ∷ ("LIVE_SUBMIT_ENABLED", "false")
    ∷ ("MARKET_DATA_ENABLED", "true")
    ∷ ("CANDIDATE_GENERATION_ENABLED", "true")
    ∷ ("GATEWAY_ENABLED", "true")
    ∷ ("ORDER_TICKETING_ENABLED", "true")
    ∷ []

abbrev pub paper_config : AppConfig
paper_config = record {
  app_env = AppEnv.vm_paper;
  broker_mode = BrokerMode.paper;
  submission_enabled = true;
  paper_submit_enabled = true;
  live_submit_enabled = false;
  market_data_enabled = true;
  candidate_generation_enabled = true;
  gateway_enabled = true;
  order_ticketing_enabled = true;
  audit_db_path = ".hermes/audit.db";
}

paper_env_is_read : from_env paper_env ≡ ok paper_config
unfolding from_env parse_app_env parse_broker_mode parse_bool app_config_valid submission_armed
paper_env_is_read = refl

from_env-paper_only_example : is_paper_only paper_config ≡ true
from_env-paper_only_example = from_env-paper_only paper_env paper_config paper_env_is_read
