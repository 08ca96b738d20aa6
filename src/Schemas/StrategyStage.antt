-- ===== src/Schemas/StrategyStage.antt =====
-- schemas/strategy_stage.py: only a LIVE strategy can mint the token of the live path.
use hermes_personal_options.Common.{ℕ, Bool, Option, none, some, Result, leb, if◌then◌else◌}
use hermes_personal_options.Schemas.Enums.{
  StrategyStage, hypothesis, research, shadow, ReasonCode, strategy_not_live_approved,
  is_live_stage,
}
use hermes_personal_options.Schemas.Model.{ModelError, construct}

abbrev pub stage_order : StrategyStage → ℕ
stage_order hypothesis = 0
stage_order research = 1
stage_order shadow = 2
stage_order StrategyStage.paper = 3
stage_order StrategyStage.live = 4

pub record StrategyStageState : Type 0 where
  pub stage : StrategyStage

unfoldable pub rejection_reason_if_not_live : StrategyStageState → Option ReasonCode
rejection_reason_if_not_live s =
    if is_live_stage s.stage then none else some strategy_not_live_approved

pub record LiveStrategyToken : Type 0 where
  pub stage : StrategyStage

-- `_must_be_live`
unfoldable pub live_token_valid : LiveStrategyToken → Bool
live_token_valid t = is_live_stage t.stage

unfoldable pub to_live_token : StrategyStageState → Result ModelError LiveStrategyToken
unfolding live_token_valid
to_live_token s = construct live_token_valid (record { stage = s.stage })

unfoldable pub stage_at_least : StrategyStage → StrategyStage → Bool
stage_at_least current minimum = leb (stage_order minimum) (stage_order current)
