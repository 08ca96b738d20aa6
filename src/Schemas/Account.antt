-- ===== src/Schemas/Account.antt =====
-- schemas/account_state.py: the account whitelist and the equity floor.
use hermes_personal_options.Common.{Bool, true, false, ◌&&◌, not}
use hermes_personal_options.Decimal.{zero_dec, Decimal, decimal_of, le_dec, lt_dec}
use hermes_personal_options.Schemas.Enums.{AccountType, margin}

abbrev pub minimum_equity_usd : Decimal
minimum_equity_usd = decimal_of 20000 0

-- Membership in PERMITTED_ACCOUNT_TYPES.
abbrev pub is_permitted_type : AccountType → Bool
is_permitted_type margin = true
is_permitted_type _ = false

pub record AccountState : Type 0 where
  pub account_type : AccountType
  pub net_liquidating_value : Decimal
  pub cash_balance : Decimal
  pub buying_power : Decimal
  pub day_pnl : Decimal
  pub week_pnl : Decimal
  pub trailing_high_water_value : Decimal

unfoldable pub account_type_permitted : AccountState → Bool
account_type_permitted a = is_permitted_type a.account_type

unfoldable pub below_minimum_equity : AccountState → Bool
below_minimum_equity a = lt_dec a.net_liquidating_value minimum_equity_usd

unfoldable pub new_entries_allowed_by_account_state : AccountState → Bool
new_entries_allowed_by_account_state a = account_type_permitted a && not (below_minimum_equity a)

-- The bounds of the fields, and `_trailing_high_water_not_below_nlv_floor`.
unfoldable pub account_valid : AccountState → Bool
account_valid a =
    lt_dec zero_dec a.net_liquidating_value
    && le_dec zero_dec a.buying_power
    && lt_dec zero_dec a.trailing_high_water_value
    && not (lt_dec a.trailing_high_water_value a.net_liquidating_value)
