-- ===== src/Schemas/Liquidity.antt =====
-- schemas/liquidity_gate.py: the liquidity of a contract, and the quality of recent fills.
use hermes_personal_options.Common.{
  ℕ, Bool, true, false, ◌&&◌, ◌||◌, not, is_absent, Option, none, some, String, leb, ltb, str_eq,
  if◌then◌else◌,
}
use hermes_personal_options.Decimal.{
  zero_dec, Decimal, decimal_of, le_dec, lt_dec, eq_dec, add_dec, sub_dec, mul_dec, div_dec,
}
use hermes_personal_options.Schemas.Enums.{
  ReasonCode, liquidity_gate_failed, execution_quality_suspended,
}

abbrev pub max_bid_ask_width_usd : Decimal
max_bid_ask_width_usd = decimal_of 10 2

abbrev pub max_bid_ask_width_pct_mid : Decimal
max_bid_ask_width_pct_mid = decimal_of 150 1

abbrev pub min_bid_usd : Decimal
min_bid_usd = decimal_of 5 2

abbrev pub min_open_interest : ℕ
min_open_interest = 100

abbrev pub min_top_of_book_size : ℕ
min_top_of_book_size = 5

abbrev pub max_slippage_vs_mid_usd : Decimal
max_slippage_vs_mid_usd = decimal_of 5 2

abbrev pub max_failed_fill_attempts : ℕ
max_failed_fill_attempts = 3

pub record LiquidityGate : Type 0 where
  pub bid : Decimal
  pub ask : Decimal
  pub open_interest : ℕ
  pub top_of_book_size : ℕ

unfoldable pub mid : LiquidityGate → Decimal
mid g = div_dec (add_dec g.bid g.ask) (decimal_of 2 0)

unfoldable pub width_usd : LiquidityGate → Decimal
width_usd g = sub_dec g.ask g.bid

-- `none` is Decimal("Infinity"), when the mid is 0.
unfoldable pub width_pct_mid : LiquidityGate → Option Decimal
unfolding mid width_usd
width_pct_mid g =
    if eq_dec (mid g) zero_dec
    then none
    else some (mul_dec (div_dec (width_usd g) (mid g)) (decimal_of 100 0))

-- A comparison that Infinity fails.
abbrev pub finite_le : Option Decimal → Decimal → Bool
finite_le none cap = false
finite_le (some d) cap = le_dec d cap

unfoldable pub liquidity_passes : LiquidityGate → Bool
liquidity_passes g =
    le_dec (width_usd g) max_bid_ask_width_usd
    && finite_le (width_pct_mid g) max_bid_ask_width_pct_mid
    && le_dec min_bid_usd g.bid
    && leb min_open_interest g.open_interest
    && leb min_top_of_book_size g.top_of_book_size

unfoldable pub liquidity_rejection_reason : LiquidityGate → Option ReasonCode
liquidity_rejection_reason g = if liquidity_passes g then none else some liquidity_gate_failed

-- The bounds of the fields, and `_reject_inverted_market`.
unfoldable pub liquidity_gate_valid : LiquidityGate → Bool
liquidity_gate_valid g = le_dec zero_dec g.bid && lt_dec zero_dec g.ask && not (lt_dec g.ask g.bid)

pub record ExecutionQualityRearmToken : Type 0 where
  pub broker_fill_report_reviewed : Bool
  pub review_artifact_id : String

unfoldable pub rearm_token_valid : ExecutionQualityRearmToken → Bool
rearm_token_valid t = not (str_eq t.review_artifact_id "") && t.broker_fill_report_reviewed

pub record ExecutionQualityState : Type 0 where
  pub rolling_avg_slippage_usd : Decimal
  pub failed_fill_attempts : ℕ
  pub trades_in_window : ℕ
  pub rearm_token : Option ExecutionQualityRearmToken

unfoldable pub should_suspend : ExecutionQualityState → Bool
should_suspend q =
    lt_dec max_slippage_vs_mid_usd q.rolling_avg_slippage_usd
    || ltb max_failed_fill_attempts q.failed_fill_attempts

unfoldable pub suspended : ExecutionQualityState → Bool
suspended q = should_suspend q && is_absent q.rearm_token

-- A token inside the state is a model of its own, with its own checks.
unfoldable pub execution_quality_valid : ExecutionQualityState → Bool
unfolding rearm_token_valid
execution_quality_valid q =
    le_dec zero_dec q.rolling_avg_slippage_usd
    && elim q.rearm_token [ none ↦ true | some t ↦ rearm_token_valid t ]

unfoldable pub execution_quality_rejection_reason : ExecutionQualityState → Option ReasonCode
execution_quality_rejection_reason q =
    if suspended q then some execution_quality_suspended else none
