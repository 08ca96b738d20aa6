-- ===== src/Schemas/PortfolioHeat/Token.antt =====
-- The approval token of a heat check.
use hermes_personal_options.Common.{◌≡◌, refl, true, arith, ok, err, if◌then◌else◌, is_absent}
use hermes_personal_options.Decimal.{Decimal, zero_dec, le_dec, lt_dec, mul_dec, div_dec}
use hermes_personal_options.Decimal.Order.{le_dec_total}
use hermes_personal_options.Decimal.Sign.{
  IsNonneg, le-zero→IsNonneg, IsNonneg→le-zero, IsNonneg-mul, IsNonneg-div,
}
use hermes_personal_options.Schemas.Model.{validation_error}
use hermes_personal_options.Schemas.PortfolioHeat.{
  PortfolioHeatCheck, ApprovedPortfolioHeat, heat_check_valid, heat_passes, risk_heat_pct,
  buying_power_heat_pct, heat_rejection_reason, approved_heat_valid, approve, hundred,
}

hundred-IsNonneg : IsNonneg hundred
hundred-IsNonneg = refl

lt-zero→IsNonneg : (a : Decimal) → lt_dec zero_dec a ≡ true → IsNonneg a
lt-zero→IsNonneg a h = le-zero→IsNonneg a (le_dec_total a zero_dec (ground arith))

share_nonneg :
    (a b : Decimal)
    → IsNonneg a
    → IsNonneg b
    → le_dec zero_dec (mul_dec (div_dec a b) hundred) ≡ true
share_nonneg a b ha hb =
    IsNonneg→le-zero _
      (IsNonneg-mul (div_dec a b) hundred (IsNonneg-div a b ha hb) hundred-IsNonneg)

pub heat_pct_nonneg :
    (h : PortfolioHeatCheck)
    → heat_check_valid h ≡ true
    → (le_dec zero_dec (risk_heat_pct h) ≡ true)
      × (le_dec zero_dec (buying_power_heat_pct h) ≡ true)
unfolding risk_heat_pct buying_power_heat_pct heat_check_valid
heat_pct_nonneg h valid =
    let nlv = lt-zero→IsNonneg h.net_liquidating_value (ground arith) in
    (
      share_nonneg h.sum_defined_max_loss h.net_liquidating_value
          (le-zero→IsNonneg h.sum_defined_max_loss (ground arith)) nlv,
      share_nonneg h.broker_margin_requirement h.net_liquidating_value
          (le-zero→IsNonneg h.broker_margin_requirement (ground arith)) nlv,
    )

-- The token that `approve` mints.
abbrev pub heat_token : PortfolioHeatCheck → ApprovedPortfolioHeat
heat_token h = record {
  risk_heat_pct = risk_heat_pct h;
  buying_power_heat_pct = buying_power_heat_pct h;
}

-- For a heat check that exists, `approve` mints the token exactly when both caps hold: no token is
-- refused after the check has passed, and none is minted over a cap.
pub approve-decides :
    (h : PortfolioHeatCheck)
    → heat_check_valid h ≡ true
    → approve h ≡ (if heat_passes h then ok (heat_token h) else err validation_error)
unfolding approve approved_heat_valid heat_passes
approve-decides h valid = ground (arith, heat_pct_nonneg h valid)

-- The gate is silent exactly when both caps hold.
pub heat_rejection_reason-absent :
    (h : PortfolioHeatCheck) → is_absent (heat_rejection_reason h) ≡ heat_passes h
unfolding heat_rejection_reason heat_passes
heat_rejection_reason-absent h = ground arith
