-- ===== src/Agents/Grants.antt =====
-- agents/permissions.py and roles.py: which grants exist.
use hermes_personal_options.Common.{
  Bool, true, false, not, ◌&&◌, List, [], ◌∷◌, any, all, is_empty, Result, ok, err, is_ok,
  ok-injective, >>-eq-ok, ◌>>◌, raise_if, ◌≡◌, refl, ap, ◌∙◌, arith,
}
use hermes_personal_options.Agents.Permissions.{
  AgentPermissionError, AgentMode, deployed_agent_service, dev_workbench, ToolName, tool_value,
  same_tool, has_tool, dev_only_tools, mode_allowlist, is_deployed, is_forbidden_tool, check_grants,
  agent_tool_policy, AgentToolPolicy, allows, tool_names, no_tools, propose_candidate_trade_intent,
  forbidden_tool, granted_twice, dev_only_tool, outside_allowlist,
}
use hermes_personal_options.Agents.Roles.{
  AgentRole, candidate_explanation, policy_for_role, role_tools,
}
use hermes_personal_options.Common.TextOrder.{str_eq_sym}

-- No tool stands in the list twice.
abbrev pub is_distinct : List ToolName → Bool
is_distinct [] = true
is_distinct (t ∷ ts) = not (has_tool t ts) && is_distinct ts

-- What a grant is: some tools of the mode's list, each once.
abbrev pub is_grantable : AgentMode → List ToolName → Bool
is_grantable mode tools =
    not (is_empty tools) && (is_distinct tools && all (λ t. has_tool t (mode_allowlist mode)) tools)

-- A property of the tools, proved at each.
by_tool :
    (P : ToolName → Type 0)
    → P ToolName.read
    → P ToolName.glob
    → P ToolName.grep
    → P ToolName.web_search
    → P ToolName.web_fetch
    → P ToolName.agent
    → P ToolName.ask_user_question
    → P ToolName.bash
    → P ToolName.edit
    → P ToolName.write
    → P ToolName.read_market_snapshot
    → P ToolName.read_audit_summary
    → P ToolName.read_strategy_spec
    → P ToolName.search_replay_results
    → P ToolName.propose_candidate_trade_intent
    → P ToolName.explain_gateway_rejection
    → P ToolName.draft_daily_report
    → P ToolName.draft_research_change_request
    → (t : ToolName) → P t
by_tool P h _ _ _ _ _ _ _ _ _ _ _ _ _ _ _ _ _ ToolName.read = h
by_tool P _ h _ _ _ _ _ _ _ _ _ _ _ _ _ _ _ _ ToolName.glob = h
by_tool P _ _ h _ _ _ _ _ _ _ _ _ _ _ _ _ _ _ ToolName.grep = h
by_tool P _ _ _ h _ _ _ _ _ _ _ _ _ _ _ _ _ _ ToolName.web_search = h
by_tool P _ _ _ _ h _ _ _ _ _ _ _ _ _ _ _ _ _ ToolName.web_fetch = h
by_tool P _ _ _ _ _ h _ _ _ _ _ _ _ _ _ _ _ _ ToolName.agent = h
by_tool P _ _ _ _ _ _ h _ _ _ _ _ _ _ _ _ _ _ ToolName.ask_user_question = h
by_tool P _ _ _ _ _ _ _ h _ _ _ _ _ _ _ _ _ _ ToolName.bash = h
by_tool P _ _ _ _ _ _ _ _ h _ _ _ _ _ _ _ _ _ ToolName.edit = h
by_tool P _ _ _ _ _ _ _ _ _ h _ _ _ _ _ _ _ _ ToolName.write = h
by_tool P _ _ _ _ _ _ _ _ _ _ h _ _ _ _ _ _ _ ToolName.read_market_snapshot = h
by_tool P _ _ _ _ _ _ _ _ _ _ _ h _ _ _ _ _ _ ToolName.read_audit_summary = h
by_tool P _ _ _ _ _ _ _ _ _ _ _ _ h _ _ _ _ _ ToolName.read_strategy_spec = h
by_tool P _ _ _ _ _ _ _ _ _ _ _ _ _ h _ _ _ _ ToolName.search_replay_results = h
by_tool P _ _ _ _ _ _ _ _ _ _ _ _ _ _ h _ _ _ ToolName.propose_candidate_trade_intent = h
by_tool P _ _ _ _ _ _ _ _ _ _ _ _ _ _ _ h _ _ ToolName.explain_gateway_rejection = h
by_tool P _ _ _ _ _ _ _ _ _ _ _ _ _ _ _ _ h _ ToolName.draft_daily_report = h
by_tool P _ _ _ _ _ _ _ _ _ _ _ _ _ _ _ _ _ h ToolName.draft_research_change_request = h

-- The two checks in front of the allowlist refuse nothing that the allowlist accepts.
not_forbidden : (t : ToolName) → is_forbidden_tool (tool_value t) ≡ false
not_forbidden =
    by_tool (λ t. is_forbidden_tool (tool_value t) ≡ false) refl refl refl refl refl refl refl refl
      refl refl refl refl refl refl refl refl refl refl

not_build_tool :
    (t : ToolName)
    → (has_tool t dev_only_tools && has_tool t (mode_allowlist deployed_agent_service)) ≡ false
unfolding mode_allowlist
not_build_tool =
    by_tool
      (λ t.
        (has_tool t dev_only_tools && has_tool t (mode_allowlist deployed_agent_service)) ≡ false)
      refl refl refl refl refl refl refl refl refl refl refl refl refl refl refl refl refl refl

not_dev_only :
    (mode : AgentMode) (t : ToolName)
    → ((is_deployed mode && has_tool t dev_only_tools) && has_tool t (mode_allowlist mode)) ≡ false
not_dev_only dev_workbench t = refl
not_dev_only deployed_agent_service t = not_build_tool t

same_tool_sym : (t u : ToolName) → same_tool t u ≡ same_tool u t
same_tool_sym t u = str_eq_sym (tool_value t) (tool_value u)

unseen_more :
    (t : ToolName) (seen ts : List ToolName)
    → all (λ u. not (has_tool u (t ∷ seen))) ts
      ≡ (not (has_tool t ts) && all (λ u. not (has_tool u seen)) ts)
unseen_more t seen [] = refl
unseen_more t seen (u ∷ ts) = ground (arith, unseen_more t seen ts, same_tool_sym t u)

-- One round of the loop, where the first and the third check are no more than the fourth.
round :
    (forbidden seen_before dev permitted : Bool) (rest : Result AgentPermissionError (Unit {0}))
    → forbidden ≡ false
    → (dev && permitted) ≡ false
    → is_ok (
        raise_if forbidden forbidden_tool
        >> (raise_if seen_before granted_twice
            >> (raise_if dev dev_only_tool
                >> (raise_if (not permitted) outside_allowlist >> rest))))
      ≡ (not seen_before && permitted && is_ok rest)
round true seen_before dev permitted rest no_name apart = cc no_name
round false true dev permitted rest no_name apart = refl
round false false true true rest no_name apart = cc apart
round false false true false rest no_name apart = refl
round false false false true rest no_name apart = refl
round false false false false rest no_name apart = refl

regroup :
    (a b c d e f : Bool)
    → (not a && d && ((not b && c) && e && f)) ≡ ((not a && c) && (not b && e) && (d && f))
regroup a b c d e f = ground arith

check_grants-exact :
    (mode : AgentMode) (seen ts : List ToolName)
    → is_ok (check_grants mode seen ts) ≡ (
        all (λ t. not (has_tool t seen)) ts
        && is_distinct ts
        && all (λ t. has_tool t (mode_allowlist mode)) ts)
unfolding check_grants
check_grants-exact mode seen [] = refl
check_grants-exact mode seen (t ∷ ts) =
    round (is_forbidden_tool (tool_value t)) (has_tool t seen)
      (is_deployed mode && has_tool t dev_only_tools) (has_tool t (mode_allowlist mode)) _
      (not_forbidden t) (not_dev_only mode t)
    ∙ ap (λ b. not (has_tool t seen) && has_tool t (mode_allowlist mode) && b)
        (check_grants-exact mode (t ∷ seen) ts
          ∙ ap (λ b. b && is_distinct ts && all (λ u. has_tool u (mode_allowlist mode)) ts)
              (unseen_more t seen ts))
    ∙ regroup (has_tool t seen) (has_tool t ts) (all (λ u. not (has_tool u seen)) ts)
        (has_tool t (mode_allowlist mode)) (is_distinct ts)
        (all (λ u. has_tool u (mode_allowlist mode)) ts)

is_ok-guarded :
    (empty : Bool) (checks : Result AgentPermissionError (Unit {0})) (p : AgentToolPolicy)
    → is_ok (raise_if empty no_tools >> (checks >> ok p)) ≡ (not empty && is_ok checks)
is_ok-guarded true checks p = refl
is_ok-guarded false (ok tt) p = refl
is_ok-guarded false (err e) p = refl

all_unseen : (ts : List ToolName) → all (λ t. not (has_tool t [])) ts ≡ true
all_unseen [] = refl
all_unseen (t ∷ ts) = all_unseen ts

-- A policy exists exactly if it grants at least one tool, none twice, and only tools of its mode's list;
-- and it then grants what it was asked to.
pub agent_tool_policy-exact :
    (mode : AgentMode) (tools : List ToolName)
    → (is_ok (agent_tool_policy mode tools) ≡ is_grantable mode tools)
      × ((p : AgentToolPolicy)
          → agent_tool_policy mode tools ≡ ok p
          → record { mode = mode; allowed_tools = tools } ≡ p)
unfolding agent_tool_policy
agent_tool_policy-exact mode tools = (
  is_ok-guarded (is_empty tools) (check_grants mode [] tools) _
      ∙ ap (λ b. not (is_empty tools) && b)
          (check_grants-exact mode [] tools
            ∙ ap (λ b. b && is_distinct tools && all (λ t. has_tool t (mode_allowlist mode)) tools)
                (all_unseen tools)),
  λ p h. ok-injective (>>-eq-ok _ _ (>>-eq-ok _ _ h).1).1,
)

-- The role that may propose a candidate.
abbrev pub is_candidate_explanation : AgentRole → Bool
is_candidate_explanation candidate_explanation = true
is_candidate_explanation _ = false

-- The policy of a role holds no build tool and no forbidden one, and proposes only in one role.
abbrev pub IsLeast : AgentRole → AgentToolPolicy → Type 0
IsLeast role p =
    (policy_for_role role ≡ ok p)
    × (p.mode ≡ deployed_agent_service)
    × (any (λ t. has_tool t dev_only_tools) p.allowed_tools ≡ false)
    × (any is_forbidden_tool (tool_names p) ≡ false)
    × (allows p propose_candidate_trade_intent ≡ is_candidate_explanation role)

-- Each role has a policy, in the deployed mode: with no build tool, with no name on the forbidden list,
-- and with the proposal of candidates exactly in the role that explains them.
pub policy_for_role-IsLeast : (role : AgentRole) → (p : AgentToolPolicy) × IsLeast role p
unfolding policy_for_role role_tools agent_tool_policy check_grants mode_allowlist allows tool_names
policy_for_role-IsLeast AgentRole.research = (_, (refl, refl, refl, refl, refl))
policy_for_role-IsLeast AgentRole.market_context = (_, (refl, refl, refl, refl, refl))
policy_for_role-IsLeast AgentRole.candidate_explanation = (_, (refl, refl, refl, refl, refl))
policy_for_role-IsLeast AgentRole.ops_summary = (_, (refl, refl, refl, refl, refl))
policy_for_role-IsLeast AgentRole.risk_narrative = (_, (refl, refl, refl, refl, refl))
