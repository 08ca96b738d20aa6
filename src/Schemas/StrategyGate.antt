-- ===== src/Schemas/StrategyGate.antt =====
-- schemas/strategy_gate.py: the entry gate of a strategy, and what its promotion asks for.
use hermes_personal_options.Common.{
  ℕ, Bool, true, false, not, ◌&&◌, Option, none, some, leb, if◌then◌else◌,
}
use hermes_personal_options.Common.Int.{ℤ, pos, leb_ℤ}
use hermes_personal_options.Decimal.{Decimal, zero_dec, decimal_of, le_dec}
use hermes_personal_options.Schemas.Enums.{
  StrategyName, catastrophe_premium_capture, zero_dte_time_decay, StrategyStage, is_live_stage,
  ReasonCode, strategy_not_live_approved,
}

pub record StrategyPromotionRequirements : Type 0 where
  pub fill_quality_verified : Bool
  pub forced_exit_drill_passed : Bool
  pub no_gamma_hot_path_llm_management : Bool
  pub paper_trading_sessions_completed : ℕ
  pub paper_trading_minimum_sessions : ℕ
  pub human_approval : Bool

-- `StrategyPromotionRequirements()`
abbrev pub no_promotion : StrategyPromotionRequirements
no_promotion = record {
  fill_quality_verified = false;
  forced_exit_drill_passed = false;
  no_gamma_hot_path_llm_management = false;
  paper_trading_sessions_completed = 0;
  paper_trading_minimum_sessions = 0;
  human_approval = false;
}

unfoldable pub all_satisfied : StrategyPromotionRequirements → Bool
all_satisfied p =
    p.fill_quality_verified
    && p.forced_exit_drill_passed
    && p.no_gamma_hot_path_llm_management
    && leb p.paper_trading_minimum_sessions p.paper_trading_sessions_completed
    && p.human_approval

pub record StrategyGate : Type 0 where
  pub name : StrategyName
  pub stage : StrategyStage
  pub iv_rank_min : Decimal
  pub dte_min : ℕ
  pub dte_max : ℕ
  pub first_live_candidate : Bool
  pub promotion : StrategyPromotionRequirements
  pub human_live_amendment : Bool

unfoldable pub live_eligible : StrategyGate → Bool
unfolding all_satisfied
live_eligible g = is_live_stage g.stage && all_satisfied g.promotion

unfoldable pub gate_reason_if_not_live : StrategyGate → Option ReasonCode
unfolding live_eligible
gate_reason_if_not_live g = if live_eligible g then none else some strategy_not_live_approved

unfoldable pub iv_rank_satisfied : StrategyGate → Decimal → Bool
iv_rank_satisfied g observed = le_dec g.iv_rank_min observed

unfoldable pub dte_allowed : StrategyGate → ℤ → Bool
dte_allowed g dte = leb_ℤ (pos g.dte_min) dte && leb_ℤ dte (pos g.dte_max)

abbrev is_zero_dte : StrategyName → Bool
is_zero_dte catastrophe_premium_capture = false
is_zero_dte zero_dte_time_decay = true

-- The bounds of the fields, and the four validators.
unfoldable pub strategy_gate_valid : StrategyGate → Bool
unfolding all_satisfied
strategy_gate_valid g =
    le_dec zero_dec g.iv_rank_min
    && le_dec g.iv_rank_min (decimal_of 100 0)
    && leb g.dte_min g.dte_max
    && not (is_zero_dte g.name && g.first_live_candidate)
    && not (is_zero_dte g.name && is_live_stage g.stage && not g.human_live_amendment)
    && not (g.first_live_candidate && is_live_stage g.stage && not (all_satisfied g.promotion))
