-- ===== src/Decimal/Order.antt =====
-- The comparison of decimals compares the exact amounts, whatever the exponents.
use hermes_personal_options.Common.{◌≡◌, true, false, arith}
use hermes_personal_options.Decimal.{Decimal, le_dec}

pub le_dec_refl : (a : Decimal) → le_dec a a ≡ true
unfolding le_dec
le_dec_refl a = ground arith

pub le_dec_total : (a b : Decimal) → le_dec a b ≡ false → le_dec b a ≡ true
unfolding le_dec
le_dec_total a b h = ground arith
