-- ===== src/Agents/Permissions.antt =====
-- agents/permissions.py: the modes, the tools, and the grant of an agent. A value of another class than
-- the type's, which the source refuses too, is no value here.
use hermes_personal_options.Common.{
  Bool, true, false, not, ◌&&◌, List, [], ◌∷◌, ◌++◌, map, any, is_empty, String, Result, ok, ◌>>◌,
  raise_if, str_eq,
}

pub data AgentPermissionError : Type 0 where
  no_tools forbidden_tool granted_twice dev_only_tool outside_allowlist empty_path not_relative
        hook_locked :
      AgentPermissionError

pub data AgentMode : Type 0 where
  dev_workbench deployed_agent_service : AgentMode

pub data ToolName : Type 0 where
  read glob grep web_search web_fetch agent ask_user_question bash edit write read_market_snapshot
        read_audit_summary read_strategy_spec search_replay_results propose_candidate_trade_intent
        explain_gateway_rejection draft_daily_report draft_research_change_request :
      ToolName

-- `tool.value`
abbrev pub tool_value : ToolName → String
tool_value read = "Read"
tool_value glob = "Glob"
tool_value grep = "Grep"
tool_value web_search = "WebSearch"
tool_value web_fetch = "WebFetch"
tool_value agent = "Agent"
tool_value ask_user_question = "AskUserQuestion"
tool_value bash = "Bash"
tool_value edit = "Edit"
tool_value write = "Write"
tool_value read_market_snapshot = "hermes.read_market_snapshot"
tool_value read_audit_summary = "hermes.read_audit_summary"
tool_value read_strategy_spec = "hermes.read_strategy_spec"
tool_value search_replay_results = "hermes.search_replay_results"
tool_value propose_candidate_trade_intent = "hermes.propose_candidate_trade_intent"
tool_value explain_gateway_rejection = "hermes.explain_gateway_rejection"
tool_value draft_daily_report = "hermes.draft_daily_report"
tool_value draft_research_change_request = "hermes.draft_research_change_request"

-- Members of a `StrEnum` are equal by their texts.
abbrev pub same_tool : ToolName → ToolName → Bool
same_tool t u = str_eq (tool_value t) (tool_value u)

abbrev pub has_tool : ToolName → List ToolName → Bool
has_tool t tools = any (same_tool t) tools

-- `_DEV_ONLY_TOOLS`
abbrev pub dev_only_tools : List ToolName
dev_only_tools = bash ∷ edit ∷ write ∷ []

-- `FORBIDDEN_TOOLS`, in the order of `sorted`.
abbrev pub forbidden_tools : List String
forbidden_tools =
    "cancel_order" ∷ "change_kill_switch" ∷ "flatten_position" ∷ "mint_broker_submit_intent"
    ∷ "mint_order_ticket" ∷ "read_broker_secret" ∷ "replace_order" ∷ "set_live_submit_enabled"
    ∷ "set_submission_enabled" ∷ "submit_order" ∷ "write_env_file" ∷ []

-- `_DEPLOYED_ALLOWED`
abbrev pub deployed_allowed : List ToolName
deployed_allowed =
    read ∷ glob ∷ grep ∷ web_search ∷ web_fetch ∷ agent ∷ ask_user_question ∷ read_market_snapshot
    ∷ read_audit_summary ∷ read_strategy_spec ∷ search_replay_results
    ∷ propose_candidate_trade_intent ∷ explain_gateway_rejection ∷ draft_daily_report
    ∷ draft_research_change_request ∷ []

-- `_DEV_ALLOWED`
abbrev pub dev_allowed : List ToolName
dev_allowed = deployed_allowed ++ bash ∷ edit ∷ write ∷ []

unfoldable pub mode_allowlist : AgentMode → List ToolName
mode_allowlist deployed_agent_service = deployed_allowed
mode_allowlist dev_workbench = dev_allowed

abbrev pub disallowed_tools : List String
disallowed_tools = forbidden_tools

abbrev pub is_forbidden_tool : String → Bool
is_forbidden_tool name = any (str_eq name) forbidden_tools

pub record AgentToolPolicy : Type 0 where
  pub mode : AgentMode
  pub allowed_tools : List ToolName

abbrev pub is_deployed : AgentMode → Bool
is_deployed deployed_agent_service = true
is_deployed dev_workbench = false

-- The loop of `__post_init__`, with the tools that it has seen.
unfoldable pub check_grants :
    AgentMode → List ToolName → List ToolName → Result AgentPermissionError (Unit {0})
unfolding mode_allowlist
check_grants mode seen [] = ok tt
check_grants mode seen (t ∷ ts) =
    raise_if (is_forbidden_tool (tool_value t)) forbidden_tool
    >> (raise_if (has_tool t seen) granted_twice
        >> (raise_if (is_deployed mode && has_tool t dev_only_tools) dev_only_tool
            >> (raise_if (not (has_tool t (mode_allowlist mode))) outside_allowlist
                >> check_grants mode (t ∷ seen) ts)))

-- `AgentToolPolicy(mode, allowed_tools)`
unfoldable pub agent_tool_policy :
    AgentMode → List ToolName → Result AgentPermissionError AgentToolPolicy
unfolding check_grants
agent_tool_policy mode tools =
    raise_if (is_empty tools) no_tools
    >> (check_grants mode [] tools >> ok (record { mode = mode; allowed_tools = tools }))

-- `AgentToolPolicy.allows`
unfoldable pub allows : AgentToolPolicy → ToolName → Bool
allows p t = has_tool t p.allowed_tools

unfoldable pub tool_names : AgentToolPolicy → List String
tool_names p = map tool_value p.allowed_tools
