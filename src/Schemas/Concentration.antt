-- ===== src/Schemas/Concentration.antt =====
-- schemas/concentration_limits.py: the aggregate caps over all open spreads.
use hermes_personal_options.Common.{ℕ, Bool, ◌&&◌, not, Option, none, some, leb, if◌then◌else◌}
use hermes_personal_options.Decimal.{Decimal, zero_dec, decimal_of, le_dec}
use hermes_personal_options.Schemas.Enums.{ReasonCode, concentration_limit_exceeded}

abbrev pub max_concurrent_spreads_total : ℕ
max_concurrent_spreads_total = 4

abbrev pub max_open_spreads_same_expiry : ℕ
max_open_spreads_same_expiry = 2

abbrev pub max_same_direction_spreads : ℕ
max_same_direction_spreads = 2

abbrev pub zero_dte_max_concurrent_spreads : ℕ
zero_dte_max_concurrent_spreads = 2

abbrev pub zero_dte_max_same_direction_spreads : ℕ
zero_dte_max_same_direction_spreads = 1

abbrev pub max_aggregate_short_delta_abs : Decimal
max_aggregate_short_delta_abs = decimal_of 30 2

abbrev pub max_aggregate_gamma_notional_pct_equity : Decimal
max_aggregate_gamma_notional_pct_equity = decimal_of 20 1

pub record ConcentrationSnapshot : Type 0 where
  pub concurrent_spreads_total : ℕ
  pub open_spreads_same_expiry : ℕ
  pub same_direction_spreads : ℕ
  pub is_zero_dte : Bool
  pub zero_dte_concurrent_spreads : ℕ
  pub zero_dte_same_direction_spreads : ℕ
  pub aggregate_short_delta_abs : Decimal
  pub aggregate_gamma_notional_pct_equity : Decimal

abbrev pub base_ok : ConcentrationSnapshot → Bool
base_ok c =
    leb c.concurrent_spreads_total max_concurrent_spreads_total
    && leb c.open_spreads_same_expiry max_open_spreads_same_expiry
    && leb c.same_direction_spreads max_same_direction_spreads
    && le_dec c.aggregate_short_delta_abs max_aggregate_short_delta_abs
    && le_dec c.aggregate_gamma_notional_pct_equity max_aggregate_gamma_notional_pct_equity

unfoldable pub concentration_passes : ConcentrationSnapshot → Bool
concentration_passes c =
    if not c.is_zero_dte
    then base_ok c
    else base_ok c
      && (leb c.zero_dte_concurrent_spreads zero_dte_max_concurrent_spreads
          && leb c.zero_dte_same_direction_spreads zero_dte_max_same_direction_spreads)

unfoldable pub concentration_rejection_reason : ConcentrationSnapshot → Option ReasonCode
concentration_rejection_reason c =
    if concentration_passes c then none else some concentration_limit_exceeded

-- The bounds `ge=0` of the two decimal fields.
unfoldable pub concentration_valid : ConcentrationSnapshot → Bool
concentration_valid c =
    le_dec zero_dec c.aggregate_short_delta_abs
    && le_dec zero_dec c.aggregate_gamma_notional_pct_equity
