-- ===== src/Examples/Validation.antt =====
-- The gateway on a request that meets every control, and on one whose delta is out of the band.
use hermes_personal_options.Common.{◌≡◌, refl, Option, ok, err, if◌then◌else◌, true, false, any}
use hermes_personal_options.Gateway.Request.{request_valid, is_zero_dte_after_2pm_ct}
use hermes_personal_options.Gateway.Gates.{contains, gate_data_freshness}
use hermes_personal_options.Gateway.Validate.{GatewayDecision, validate}
use hermes_personal_options.Gateway.Faults.{shows, faults}
use hermes_personal_options.Gateway.Rejection.{validate-codes}
use hermes_personal_options.Gateway.Decision.{validate-decides, decision}
use hermes_personal_options.Gateway.Codes.{no_repeats}
use hermes_personal_options.Schemas.Enums.{ReasonCode, delta_band_violation}
use hermes_personal_options.Common.Int.{◌*ℤ◌, ◌-ℤ◌, ◌+ℤ◌}
use hermes_personal_options.Decimal.{
  le_dec, scaled, sub_dec, abs_dec, fix, num_digits, round_half_even,
}
use hermes_personal_options.Time.{instant}
use hermes_personal_options.Schemas.TradeIntent.{
  candidate_valid, spread_leg_valid, structurally_defined_risk, spread_width,
}
use hermes_personal_options.Schemas.Account.{account_valid}
use hermes_personal_options.Schemas.PortfolioHeat.{
  PortfolioHeatCheck, heat_check_valid, heat_passes, approve,
}
use hermes_personal_options.Schemas.PortfolioHeat.Token.{heat_token, approve-decides}
use hermes_personal_options.Schemas.Model.{validation_error}
use hermes_personal_options.Schemas.MarketData.Freshness.{
  Decides, is_fresh, freshness_reason-Decides,
}
use hermes_personal_options.Schemas.Drawdown.{drawdown_valid}
use hermes_personal_options.Schemas.ContractMetadata.{spread_contract_valid, contract_valid}
use hermes_personal_options.Schemas.Instrument.{underlying_policy_valid}
use hermes_personal_options.Schemas.MarketData.{freshness_reason, snapshot_valid, price_check_valid}
use hermes_personal_options.Schemas.Liquidity.{liquidity_gate_valid, execution_quality_valid}
use hermes_personal_options.Schemas.Concentration.{concentration_valid}
use hermes_personal_options.Schemas.Protection.{protection_valid, multi_leg_valid, calendar_valid}
use hermes_personal_options.Schemas.FeedCertification.{feed_certification_valid}
use hermes_personal_options.Examples.Data.{
  half_past_ten, request_of, put_spread, chicago_winter, digest_of_request,
}

request_valid_example : request_valid (request_of put_spread) ≡ true
unfolding request_valid candidate_valid spread_leg_valid structurally_defined_risk spread_width
    account_valid heat_check_valid drawdown_valid spread_contract_valid contract_valid
    underlying_policy_valid snapshot_valid price_check_valid liquidity_gate_valid
    execution_quality_valid concentration_valid protection_valid multi_leg_valid
    feed_certification_valid calendar_valid le_dec scaled sub_dec abs_dec fix instant ◌*ℤ◌ ◌-ℤ◌ ◌+ℤ◌
    num_digits round_half_even
request_valid_example = refl

-- The gateway approves the request.
validate-decides_example :
    (freshness : Option ReasonCode) × (gate_data_freshness
        (request_of put_spread).data_snapshot
        (request_of put_spread).as_of
        (is_zero_dte_after_2pm_ct chicago_winter (request_of put_spread))
      ≡ ok freshness)
    × (validate digest_of_request chicago_winter (request_of put_spread)
        ≡ ok (decision digest_of_request chicago_winter (request_of put_spread) freshness))
validate-decides_example =
    validate-decides digest_of_request chicago_winter (request_of put_spread) request_valid_example

validate-codes_example :
    (d : GatewayDecision) × (validate digest_of_request chicago_winter (request_of put_spread)
      ≡ ok d)
    × (no_repeats d.reason_codes ≡ true)
    × (contains delta_band_violation d.reason_codes
        ≡ any (any (shows delta_band_violation)) (faults chicago_winter (request_of put_spread)))
validate-codes_example =
    validate-codes chicago_winter digest_of_request (request_of put_spread) delta_band_violation
      request_valid_example

abbrev light_heat : PortfolioHeatCheck
light_heat = (request_of put_spread).heat

light_heat_valid : heat_check_valid light_heat ≡ true
unfolding heat_check_valid le_dec scaled ◌*ℤ◌
light_heat_valid = refl

approve-decides_example :
    approve light_heat
    ≡ (if heat_passes light_heat then ok (heat_token light_heat) else err validation_error)
approve-decides_example = approve-decides light_heat light_heat_valid

freshness_reason-Decides_example :
    Decides
      (freshness_reason (request_of put_spread).data_snapshot half_past_ten false)
      (is_fresh (request_of put_spread).data_snapshot half_past_ten false)
freshness_reason-Decides_example =
    freshness_reason-Decides (request_of put_spread).data_snapshot half_past_ten false
