-- ===== src/Schemas/ContractMetadata.antt =====
-- schemas/contract_metadata.py: the contracts behind the two legs of a spread.
use hermes_personal_options.Common.{
  ℕ, Bool, ◌&&◌, not, Option, none, some, String, ltb, str_eq, ◌==◌, is_absent, if◌then◌else◌,
}
use hermes_personal_options.Common.Int.{ℤ, pos, ◌-ℤ◌}
use hermes_personal_options.Decimal.{Decimal, zero_dec, lt_dec, eq_dec}
use hermes_personal_options.Time.{AwareDateTime, before, not_after, same_instant, date_ordinal}
use hermes_personal_options.Schemas.Enums.{
  Underlying, ExerciseStyle, SettlementStyle, OptionType, ReasonCode, contract_metadata_invalid,
  contract_spread_mismatch, same_underlying, same_option_type, is_european, is_cash,
}
use hermes_personal_options.Schemas.TradeIntent.{CandidateTradeIntent}

pub record ContractMetadata : Type 0 where
  pub underlying : Underlying
  pub option_symbol : String
  pub expiration_date : AwareDateTime
  pub expiration_time : AwareDateTime
  pub last_trading_time : AwareDateTime
  pub settlement_style : SettlementStyle
  pub exercise_style : ExerciseStyle
  pub multiplier : ℕ
  pub strike : Decimal
  pub option_type : OptionType

unfoldable pub mandate_compliant : ContractMetadata → Bool
mandate_compliant c = is_european c.exercise_style && is_cash c.settlement_style

unfoldable pub contract_rejection_reason : ContractMetadata → Option ReasonCode
contract_rejection_reason c = if mandate_compliant c then none else some contract_metadata_invalid

unfoldable pub is_tradable_as_of : ContractMetadata → AwareDateTime → Bool
is_tradable_as_of c as_of = mandate_compliant c && not_after as_of c.last_trading_time

-- The bounds of the fields, and `_times_are_ordered`.
unfoldable pub contract_valid : ContractMetadata → Bool
contract_valid c =
    not (str_eq c.option_symbol "")
    && ltb 0 c.multiplier
    && lt_dec zero_dec c.strike
    && not (before c.expiration_time c.last_trading_time)
    && date_ordinal c.expiration_date == date_ordinal c.expiration_time

pub record SpreadContractMetadata : Type 0 where
  pub short_contract : ContractMetadata
  pub long_contract : ContractMetadata

-- `_both_legs_consistent`, over two contracts that pass their own checks.
unfoldable pub spread_contract_valid : SpreadContractMetadata → Bool
spread_contract_valid s =
    contract_valid s.short_contract
    && contract_valid s.long_contract
    && same_underlying s.short_contract.underlying s.long_contract.underlying
    && same_option_type s.short_contract.option_type s.long_contract.option_type
    && same_instant s.short_contract.expiration_time s.long_contract.expiration_time
    && same_instant s.short_contract.expiration_date s.long_contract.expiration_date
    && same_instant s.short_contract.last_trading_time s.long_contract.last_trading_time

unfoldable pub spread_rejection_reason : SpreadContractMetadata → Option ReasonCode
unfolding contract_rejection_reason
spread_rejection_reason s =
    if not (is_absent (contract_rejection_reason s.short_contract))
    then contract_rejection_reason s.short_contract
    else contract_rejection_reason s.long_contract

-- Days from the date of `as_of` to the expiration date; negative once that is past.
unfoldable pub derived_dte : SpreadContractMetadata → AwareDateTime → ℤ
unfolding ◌-ℤ◌
derived_dte s as_of =
    pos (date_ordinal s.short_contract.expiration_time) -ℤ pos (date_ordinal as_of)

unfoldable pub spread_tradable_as_of : SpreadContractMetadata → AwareDateTime → Bool
spread_tradable_as_of s as_of =
    is_tradable_as_of s.short_contract as_of && is_tradable_as_of s.long_contract as_of

-- `all(checks)`
unfoldable pub matches_candidate : SpreadContractMetadata → CandidateTradeIntent → Bool
matches_candidate s c =
    same_underlying s.short_contract.underlying c.underlying
    && same_underlying s.long_contract.underlying c.underlying
    && same_option_type s.short_contract.option_type c.short_leg.option_type
    && same_option_type s.long_contract.option_type c.long_leg.option_type
    && eq_dec s.short_contract.strike c.short_leg.strike
    && eq_dec s.long_contract.strike c.long_leg.strike
    && s.short_contract.multiplier == c.multiplier
    && s.long_contract.multiplier == c.multiplier

unfoldable pub matches_candidate_reason :
    SpreadContractMetadata → CandidateTradeIntent → Option ReasonCode
matches_candidate_reason s c = if matches_candidate s c then none else some contract_spread_mismatch
