-- ===== src/Schemas/Drawdown.antt =====
-- schemas/drawdown_state.py: the drawdown ladder as a state object.
use hermes_personal_options.Common.{
  Bool, true, false, ◌&&◌, ◌||◌, not, is_absent, Option, none, some,
}
use hermes_personal_options.Decimal.{Decimal, decimal_of}
use hermes_personal_options.Schemas.Enums.{
  DrawdownTier, no_tier, daily, weekly, trailing, HaltAction, halt_new_entries_remainder_of_day,
  halt_new_entries_and_manage_exits, system_halt_and_managed_flatten, ReArmMode, auto_next_session,
  human_only, human_only_after_review,
}

pub record TierRule : Type 0 where
  pub threshold_pct : Decimal
  pub action : HaltAction
  pub rearm : ReArmMode

-- `_TIER_RULES`; the table has no row for NONE.
unfoldable pub tier_rule : DrawdownTier → Option TierRule
tier_rule no_tier = none
tier_rule daily = some (record {
  threshold_pct = decimal_of 25 1;
  action = halt_new_entries_remainder_of_day;
  rearm = auto_next_session;
})
tier_rule weekly = some (record {
  threshold_pct = decimal_of 50 1;
  action = halt_new_entries_and_manage_exits;
  rearm = human_only;
})
tier_rule trailing = some (record {
  threshold_pct = decimal_of 80 1;
  action = system_halt_and_managed_flatten;
  rearm = human_only_after_review;
})

unfoldable pub required_rearm_mode : DrawdownTier → Option ReArmMode
unfolding tier_rule
required_rearm_mode tier = elim (tier_rule tier) [ none ↦ none | some rule ↦ some rule.rearm ]

pub record DrawdownHaltState : Type 0 where
  pub active_tier : DrawdownTier
  pub triggered_action : Option HaltAction
  pub rearm_mode : Option ReArmMode
  pub human_rearm_granted : Bool

abbrev is_no_tier : DrawdownTier → Bool
is_no_tier no_tier = true
is_no_tier _ = false

unfoldable pub new_entries_allowed : DrawdownHaltState → Bool
new_entries_allowed d = is_no_tier d.active_tier

-- `rearm_mode in (HUMAN_ONLY, HUMAN_ONLY_AFTER_REVIEW)`
abbrev pub is_human_rearm : Option ReArmMode → Bool
is_human_rearm none = false
is_human_rearm (some auto_next_session) = false
is_human_rearm (some human_only) = true
is_human_rearm (some human_only_after_review) = true

unfoldable pub requires_human_rearm : DrawdownHaltState → Bool
requires_human_rearm d = is_human_rearm d.rearm_mode

abbrev same_action : HaltAction → HaltAction → Bool
same_action halt_new_entries_remainder_of_day halt_new_entries_remainder_of_day = true
same_action halt_new_entries_and_manage_exits halt_new_entries_and_manage_exits = true
same_action system_halt_and_managed_flatten system_halt_and_managed_flatten = true
same_action _ _ = false

abbrev same_rearm : ReArmMode → ReArmMode → Bool
same_rearm auto_next_session auto_next_session = true
same_rearm human_only human_only = true
same_rearm human_only_after_review human_only_after_review = true
same_rearm _ _ = false

-- `field == expected`, for an optional field.
abbrev is_some_of {ℓ} : {A : Type ℓ} → (A → A → Bool) → Option A → A → Bool
is_some_of same none expected = false
is_some_of same (some found) expected = same found expected

-- `_action_and_rearm_match_tier`
unfoldable pub drawdown_valid : DrawdownHaltState → Bool
unfolding tier_rule requires_human_rearm
drawdown_valid d = elim (tier_rule d.active_tier) [
  | none ↦ not (
      not (is_absent d.triggered_action) || (not (is_absent d.rearm_mode) || d.human_rearm_granted))
  | some rule ↦
      is_some_of same_action d.triggered_action rule.action
      && is_some_of same_rearm d.rearm_mode rule.rearm
      && not (d.human_rearm_granted && not (requires_human_rearm d))
]
