-- ===== src/Schemas/Enums.antt =====
-- schemas/enums.py: the closed sets of values, and the identity test (`is`) of each set that the
-- code compares.
use hermes_personal_options.Common.{
  ℕ, zero, suc, Bool, true, false, not, List, [], ◌∷◌, ◌==◌, ==_iff, ◌≡◌, refl, sym, ap, ◌∙◌,
}

pub data Underlying : Type 0 where
  xsp spx : Underlying

pub data ExerciseStyle : Type 0 where
  european american : ExerciseStyle

pub data SettlementStyle : Type 0 where
  cash physical : SettlementStyle

pub data OptionType : Type 0 where
  put call : OptionType

pub data StrategyStage : Type 0 where
  hypothesis research shadow paper live : StrategyStage

pub data StrategyName : Type 0 where
  catastrophe_premium_capture zero_dte_time_decay : StrategyName

pub data OrderType : Type 0 where
  limit market : OrderType

pub data EmergencyState : Type 0 where
  normal broken_spread emergency_risk_reduction forced_liquidation : EmergencyState

pub data DrawdownTier : Type 0 where
  no_tier daily weekly trailing : DrawdownTier

pub data ReArmMode : Type 0 where
  auto_next_session human_only human_only_after_review : ReArmMode

pub data AccountType : Type 0 where
  margin portfolio_margin multi_account : AccountType

pub data ReasonCode : Type 0 where
  price_stale ivr_stale account_type_not_permitted minimum_equity_breach drawdown_halt_active
        secondary_feed_mismatch heat_limit_exceeded buying_power_limit_exceeded delta_band_violation
        entry_window_closed event_blackout_active contract_metadata_invalid liquidity_gate_failed
        broken_spread_state human_rearm_required anti_martingale_violation
        concentration_limit_exceeded protection_hierarchy_violation secondary_feed_not_certified
        execution_quality_suspended strategy_not_live_approved instrument_not_permitted
        internal_contradiction data_timestamp_invalid dte_mismatch contract_spread_mismatch
        reconciliation_mismatch operator_halt_command operator_resume_command
        operator_cancel_command operator_flatten_command :
      ReasonCode

pub data HaltAction : Type 0 where
  halt_new_entries_remainder_of_day halt_new_entries_and_manage_exits
        system_halt_and_managed_flatten :
      HaltAction

pub data SpreadDirection : Type 0 where
  put_credit call_credit : SpreadDirection

pub data LegSide : Type 0 where
  short long : LegSide

pub data MacroEvent : Type 0 where
  fomc_rate_decision cpi_release nfp_release fed_chair_speech unscheduled_market_halt : MacroEvent

pub data FeedProvider : Type 0 where
  polygon : FeedProvider

pub data CertificationStatus : Type 0 where
  certified not_certified expired : CertificationStatus

pub data IntentStatus : Type 0 where
  candidate validated ticketed : IntentStatus

pub data SubmitMode : Type 0 where
  live paper : SubmitMode

pub data OrderLifecycleState : Type 0 where
  pending_submit submitted working partial_fill filled cancelled rejected expired :
      OrderLifecycleState

pub data HumanRequiredKind : Type 0 where
  drawdown_halt execution_quality_suspension secondary_feed_not_certified broken_spread
        reconciliation_mismatch strategy_promotion_request :
      HumanRequiredKind

-- `a is b`, for the sets that the code compares.
abbrev pub same_underlying : Underlying → Underlying → Bool
same_underlying xsp xsp = true
same_underlying spx spx = true
same_underlying _ _ = false

abbrev pub same_option_type : OptionType → OptionType → Bool
same_option_type put put = true
same_option_type call call = true
same_option_type _ _ = false

abbrev pub same_order_type : OrderType → OrderType → Bool
same_order_type limit limit = true
same_order_type market market = true
same_order_type _ _ = false

abbrev pub is_xsp : Underlying → Bool
is_xsp = same_underlying xsp

abbrev pub is_spx : Underlying → Bool
is_spx = same_underlying spx

abbrev pub is_put : OptionType → Bool
is_put = same_option_type put

abbrev pub is_market : OrderType → Bool
is_market = same_order_type market

abbrev pub is_limit : OrderType → Bool
is_limit = same_order_type limit

abbrev pub is_short : LegSide → Bool
is_short short = true
is_short long = false

abbrev pub is_long : LegSide → Bool
is_long short = false
is_long long = true

abbrev pub is_put_credit : SpreadDirection → Bool
is_put_credit put_credit = true
is_put_credit call_credit = false

abbrev pub is_live_stage : StrategyStage → Bool
is_live_stage live = true
is_live_stage _ = false

abbrev pub is_normal : EmergencyState → Bool
is_normal normal = true
is_normal _ = false

abbrev pub is_european : ExerciseStyle → Bool
is_european european = true
is_european american = false

abbrev pub is_cash : SettlementStyle → Bool
is_cash cash = true
is_cash physical = false

abbrev pub is_certified : CertificationStatus → Bool
is_certified certified = true
is_certified _ = false

abbrev pub is_candidate : IntentStatus → Bool
is_candidate candidate = true
is_candidate _ = false

abbrev pub is_validated : IntentStatus → Bool
is_validated validated = true
is_validated _ = false

abbrev pub is_ticketed : IntentStatus → Bool
is_ticketed ticketed = true
is_ticketed _ = false

abbrev pub is_paper_submit : SubmitMode → Bool
is_paper_submit SubmitMode.paper = true
is_paper_submit SubmitMode.live = false

abbrev pub is_filled : OrderLifecycleState → Bool
is_filled filled = true
is_filled _ = false

-- EmergencyState.market_orders_allowed
abbrev pub market_orders_allowed : EmergencyState → Bool
market_orders_allowed s = not (is_normal s)

-- Reason codes are compared by their place in the enumeration.
abbrev reason_ordinal : ReasonCode → ℕ
reason_ordinal ReasonCode.price_stale = 0
reason_ordinal ReasonCode.ivr_stale = 1
reason_ordinal ReasonCode.account_type_not_permitted = 2
reason_ordinal ReasonCode.minimum_equity_breach = 3
reason_ordinal ReasonCode.drawdown_halt_active = 4
reason_ordinal ReasonCode.secondary_feed_mismatch = 5
reason_ordinal ReasonCode.heat_limit_exceeded = 6
reason_ordinal ReasonCode.buying_power_limit_exceeded = 7
reason_ordinal ReasonCode.delta_band_violation = 8
reason_ordinal ReasonCode.entry_window_closed = 9
reason_ordinal ReasonCode.event_blackout_active = 10
reason_ordinal ReasonCode.contract_metadata_invalid = 11
reason_ordinal ReasonCode.liquidity_gate_failed = 12
reason_ordinal ReasonCode.broken_spread_state = 13
reason_ordinal ReasonCode.human_rearm_required = 14
reason_ordinal ReasonCode.anti_martingale_violation = 15
reason_ordinal ReasonCode.concentration_limit_exceeded = 16
reason_ordinal ReasonCode.protection_hierarchy_violation = 17
reason_ordinal ReasonCode.secondary_feed_not_certified = 18
reason_ordinal ReasonCode.execution_quality_suspended = 19
reason_ordinal ReasonCode.strategy_not_live_approved = 20
reason_ordinal ReasonCode.instrument_not_permitted = 21
reason_ordinal ReasonCode.internal_contradiction = 22
reason_ordinal ReasonCode.data_timestamp_invalid = 23
reason_ordinal ReasonCode.dte_mismatch = 24
reason_ordinal ReasonCode.contract_spread_mismatch = 25
reason_ordinal ReasonCode.reconciliation_mismatch = 26
reason_ordinal ReasonCode.operator_halt_command = 27
reason_ordinal ReasonCode.operator_resume_command = 28
reason_ordinal ReasonCode.operator_cancel_command = 29
reason_ordinal ReasonCode.operator_flatten_command = 30

abbrev pub reason_codes_in_order : List ReasonCode
reason_codes_in_order =
    ReasonCode.price_stale ∷ ReasonCode.ivr_stale ∷ ReasonCode.account_type_not_permitted
    ∷ ReasonCode.minimum_equity_breach ∷ ReasonCode.drawdown_halt_active
    ∷ ReasonCode.secondary_feed_mismatch ∷ ReasonCode.heat_limit_exceeded
    ∷ ReasonCode.buying_power_limit_exceeded ∷ ReasonCode.delta_band_violation
    ∷ ReasonCode.entry_window_closed ∷ ReasonCode.event_blackout_active
    ∷ ReasonCode.contract_metadata_invalid ∷ ReasonCode.liquidity_gate_failed
    ∷ ReasonCode.broken_spread_state ∷ ReasonCode.human_rearm_required
    ∷ ReasonCode.anti_martingale_violation ∷ ReasonCode.concentration_limit_exceeded
    ∷ ReasonCode.protection_hierarchy_violation ∷ ReasonCode.secondary_feed_not_certified
    ∷ ReasonCode.execution_quality_suspended ∷ ReasonCode.strategy_not_live_approved
    ∷ ReasonCode.instrument_not_permitted ∷ ReasonCode.internal_contradiction
    ∷ ReasonCode.data_timestamp_invalid ∷ ReasonCode.dte_mismatch
    ∷ ReasonCode.contract_spread_mismatch ∷ ReasonCode.reconciliation_mismatch
    ∷ ReasonCode.operator_halt_command ∷ ReasonCode.operator_resume_command
    ∷ ReasonCode.operator_cancel_command ∷ ReasonCode.operator_flatten_command ∷ []

abbrev reason_at : List ReasonCode → ℕ → ReasonCode
reason_at [] k = ReasonCode.price_stale
reason_at (r ∷ rs) zero = r
reason_at (r ∷ rs) (suc k) = reason_at rs k

reason_at-ordinal : (r : ReasonCode) → reason_at reason_codes_in_order (reason_ordinal r) ≡ r
reason_at-ordinal ReasonCode.price_stale = refl
reason_at-ordinal _ = refl

-- `a == b`
unfoldable pub same_reason : ReasonCode → ReasonCode → Bool
same_reason a b = reason_ordinal a == reason_ordinal b

pub same_reason_refl : (a : ReasonCode) → same_reason a a ≡ true
unfolding same_reason
same_reason_refl a = (==_iff (reason_ordinal a) (reason_ordinal a)).1 refl

pub same_reason→eq : (a b : ReasonCode) → same_reason a b ≡ true → a ≡ b
unfolding same_reason
same_reason→eq a b h =
    sym (reason_at-ordinal a)
    ∙ ap (reason_at reason_codes_in_order) ((==_iff (reason_ordinal a) (reason_ordinal b)).0 h)
    ∙ reason_at-ordinal b
