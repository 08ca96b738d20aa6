-- ===== src/Schemas/TradeIntent.antt =====
-- schemas/trade_intent.py: the proposal of a spread, and the intent that the gateway validates.
use hermes_personal_options.Common.{
  ℕ, Bool, not, ◌&&◌, Option, none, some, String, ltb, ◌==◌, str_eq, if◌then◌else◌,
}
use hermes_personal_options.Decimal.{
  zero_dec, Decimal, decimal_of, le_dec, lt_dec, sub_dec, abs_dec, scale_dec,
}
use hermes_personal_options.Schemas.Enums.{
  Underlying, OptionType, put, call, LegSide, SpreadDirection, IntentStatus, ReasonCode,
  delta_band_violation, is_short, is_long, is_put_credit, is_candidate, is_validated,
  same_option_type,
}
use hermes_personal_options.Schemas.PortfolioHeat.{ApprovedPortfolioHeat}
use hermes_personal_options.Schemas.FeedCertification.{CertifiedFeedToken}
use hermes_personal_options.Schemas.StrategyStage.{LiveStrategyToken}

abbrev pub short_delta_abs_cap : Decimal
short_delta_abs_cap = decimal_of 10 2

-- `contracts` has the bound `gt=0`, so a negative count never reaches a model.
pub record SpreadLeg : Type 0 where
  pub side : LegSide
  pub option_type : OptionType
  pub strike : Decimal
  pub delta : Decimal
  pub contracts : ℕ

-- Puts have deltas <= 0, and calls >= 0.
abbrev pub delta_sign_ok : OptionType → Decimal → Bool
delta_sign_ok put delta = le_dec delta zero_dec
delta_sign_ok call delta = le_dec zero_dec delta

unfoldable pub spread_leg_valid : SpreadLeg → Bool
spread_leg_valid leg =
    lt_dec zero_dec leg.strike && ltb 0 leg.contracts && delta_sign_ok leg.option_type leg.delta

pub record CandidateTradeIntent : Type 0 where
  pub status : IntentStatus
  pub underlying : Underlying
  pub direction : SpreadDirection
  pub short_leg : SpreadLeg
  pub long_leg : SpreadLeg
  pub net_credit : Decimal
  pub multiplier : ℕ
  pub dte : ℕ
  pub rationale_id : String

unfoldable pub spread_width : CandidateTradeIntent → Decimal
spread_width c = abs_dec (sub_dec c.short_leg.strike c.long_leg.strike)

unfoldable pub max_loss : CandidateTradeIntent → Decimal
unfolding spread_width
max_loss c =
    scale_dec (scale_dec (sub_dec (spread_width c) c.net_credit) c.multiplier) c.short_leg.contracts

unfoldable pub short_delta_within_cap : CandidateTradeIntent → Bool
short_delta_within_cap c = le_dec (abs_dec c.short_leg.delta) short_delta_abs_cap

unfoldable pub delta_rejection_reason : CandidateTradeIntent → Option ReasonCode
delta_rejection_reason c = if short_delta_within_cap c then none else some delta_band_violation

-- The option type that a direction is built from.
abbrev pub expected_option_type : SpreadDirection → OptionType
expected_option_type d = if is_put_credit d then put else call

-- The long leg lies further out of the money than the short one.
abbrev pub strikes_protective : SpreadDirection → Decimal → Decimal → Bool
strikes_protective d short_strike long_strike =
    if is_put_credit d then lt_dec long_strike short_strike else lt_dec short_strike long_strike

-- `_structurally_defined_risk`
unfoldable pub structurally_defined_risk : CandidateTradeIntent → Bool
structurally_defined_risk c =
    is_candidate c.status
    && (is_short c.short_leg.side && is_long c.long_leg.side)
    && same_option_type c.short_leg.option_type c.long_leg.option_type
    && c.short_leg.contracts == c.long_leg.contracts
    && same_option_type c.short_leg.option_type (expected_option_type c.direction)
    && lt_dec c.net_credit (spread_width c)
    && strikes_protective c.direction c.short_leg.strike c.long_leg.strike

unfoldable pub candidate_valid : CandidateTradeIntent → Bool
candidate_valid c =
    spread_leg_valid c.short_leg
    && spread_leg_valid c.long_leg
    && lt_dec zero_dec c.net_credit
    && ltb 0 c.multiplier
    && not (str_eq c.rationale_id "")
    && structurally_defined_risk c

pub record ValidatedTradeIntent : Type 0 where
  pub status : IntentStatus
  pub candidate : CandidateTradeIntent
  pub approved_heat : ApprovedPortfolioHeat
  pub certified_feed : CertifiedFeedToken
  pub live_strategy : LiveStrategyToken

-- `_status_and_delta`; the parts are models that exist already.
unfoldable pub validated_valid : ValidatedTradeIntent → Bool
validated_valid v = is_validated v.status && short_delta_within_cap v.candidate
