-- ===== src/Agents/Roles.antt =====
-- agents/roles.py: the five roles, and the tools of each.
use hermes_personal_options.Common.{List, [], ◌∷◌, Result, ok, ◌>>=◌}
use hermes_personal_options.Agents.Permissions.{
  AgentPermissionError, ToolName, read, glob, grep, web_search, web_fetch, read_market_snapshot,
  read_audit_summary, read_strategy_spec, search_replay_results, propose_candidate_trade_intent,
  explain_gateway_rejection, draft_daily_report, draft_research_change_request,
  deployed_agent_service, AgentToolPolicy, agent_tool_policy,
}

pub data AgentRole : Type 0 where
  research market_context candidate_explanation ops_summary risk_narrative : AgentRole

-- `_ROLE_TOOLS`
unfoldable pub role_tools : AgentRole → List ToolName
role_tools research =
    read ∷ glob ∷ grep ∷ web_search ∷ web_fetch ∷ read_market_snapshot ∷ read_audit_summary
    ∷ read_strategy_spec ∷ search_replay_results ∷ draft_research_change_request ∷ []
role_tools market_context =
    read ∷ grep ∷ read_market_snapshot ∷ read_strategy_spec ∷ search_replay_results ∷ []
role_tools candidate_explanation =
    read ∷ grep ∷ read_market_snapshot ∷ read_audit_summary ∷ propose_candidate_trade_intent
    ∷ explain_gateway_rejection ∷ []
role_tools ops_summary = read ∷ grep ∷ read_audit_summary ∷ draft_daily_report ∷ []
role_tools risk_narrative =
    read ∷ grep ∷ read_audit_summary ∷ draft_daily_report ∷ explain_gateway_rejection ∷ []

unfoldable pub policy_for_role : AgentRole → Result AgentPermissionError AgentToolPolicy
unfolding role_tools
policy_for_role role = agent_tool_policy deployed_agent_service (role_tools role)

abbrev all_roles : List AgentRole
all_roles = research ∷ market_context ∷ candidate_explanation ∷ ops_summary ∷ risk_narrative ∷ []

abbrev policies_of :
    List AgentRole → Result AgentPermissionError (List (AgentRole × AgentToolPolicy))
policies_of [] = ok []
policies_of (r ∷ rs) = do p ← policy_for_role r; ps ← policies_of rs; ok ((r, p) ∷ ps)

unfoldable pub all_role_policies : Result AgentPermissionError (List (AgentRole × AgentToolPolicy))
all_role_policies = policies_of all_roles
