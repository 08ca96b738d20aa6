-- ===== src/Schemas/PortfolioHeat.antt =====
-- schemas/portfolio_heat.py: the two heat limits, and the token that proves both.
pub mod Token
use hermes_personal_options.Common.{Bool, not, ◌&&◌, Option, none, some, Result, err, if◌then◌else◌}
use hermes_personal_options.Decimal.{
  zero_dec, Decimal, decimal_of, le_dec, lt_dec, div_dec, mul_dec,
}
use hermes_personal_options.Schemas.Enums.{
  ReasonCode, heat_limit_exceeded, buying_power_limit_exceeded,
}
use hermes_personal_options.Schemas.Model.{ModelError, validation_error, construct}

abbrev pub risk_heat_cap_pct : Decimal
risk_heat_cap_pct = decimal_of 6 0

abbrev pub buying_power_heat_cap_pct : Decimal
buying_power_heat_cap_pct = decimal_of 35 0

abbrev hundred : Decimal
hundred = decimal_of 100 0

pub record PortfolioHeatCheck : Type 0 where
  pub sum_defined_max_loss : Decimal
  pub broker_margin_requirement : Decimal
  pub net_liquidating_value : Decimal

unfoldable pub heat_check_valid : PortfolioHeatCheck → Bool
heat_check_valid h =
    le_dec zero_dec h.sum_defined_max_loss
    && le_dec zero_dec h.broker_margin_requirement
    && lt_dec zero_dec h.net_liquidating_value

unfoldable pub risk_heat_pct : PortfolioHeatCheck → Decimal
risk_heat_pct h = mul_dec (div_dec h.sum_defined_max_loss h.net_liquidating_value) hundred

unfoldable pub buying_power_heat_pct : PortfolioHeatCheck → Decimal
buying_power_heat_pct h =
    mul_dec (div_dec h.broker_margin_requirement h.net_liquidating_value) hundred

unfoldable pub risk_heat_ok : PortfolioHeatCheck → Bool
risk_heat_ok h = le_dec (risk_heat_pct h) risk_heat_cap_pct

unfoldable pub buying_power_heat_ok : PortfolioHeatCheck → Bool
buying_power_heat_ok h = le_dec (buying_power_heat_pct h) buying_power_heat_cap_pct

unfoldable pub heat_passes : PortfolioHeatCheck → Bool
unfolding risk_heat_ok buying_power_heat_ok
heat_passes h = risk_heat_ok h && buying_power_heat_ok h

unfoldable pub heat_rejection_reason : PortfolioHeatCheck → Option ReasonCode
unfolding risk_heat_ok buying_power_heat_ok
heat_rejection_reason h =
    if not (risk_heat_ok h)
    then some heat_limit_exceeded
    else if not (buying_power_heat_ok h)
    then some buying_power_limit_exceeded
    else none

pub record ApprovedPortfolioHeat : Type 0 where
  pub risk_heat_pct : Decimal
  pub buying_power_heat_pct : Decimal

-- The bounds `ge=0` and `_within_caps`.
unfoldable pub approved_heat_valid : ApprovedPortfolioHeat → Bool
approved_heat_valid t =
    le_dec zero_dec t.risk_heat_pct
    && le_dec zero_dec t.buying_power_heat_pct
    && le_dec t.risk_heat_pct risk_heat_cap_pct
    && le_dec t.buying_power_heat_pct buying_power_heat_cap_pct

-- `approve`; its own ValueError and the token's ValidationError are one failure to its callers.
unfoldable pub approve : PortfolioHeatCheck → Result ModelError ApprovedPortfolioHeat
unfolding heat_passes
approve h =
    let token = construct approved_heat_valid (record {
      risk_heat_pct = risk_heat_pct h;
      buying_power_heat_pct = buying_power_heat_pct h;
    }) in
    if not (heat_passes h) then err validation_error else token
