-- ===== src/Decimal/Sign.antt =====
-- The operations on amounts that are not negative give such amounts.
use native.Mathlib.Nat.{pow-suc}
use hermes_personal_options.Common.{ℕ, zero, suc, ◌^◌, ◌≤◌, ◌≡◌, refl, true, arith}
use hermes_personal_options.Common.Int.{ℤ, pos, negsuc, pos_part, neg_part, ◌*ℤ◌}
use hermes_personal_options.Decimal.{Decimal, zero_dec, le_dec, fix, mul_dec, div_dec, with_sign}

abbrev pub IsNonneg : Decimal → Type 0
IsNonneg a = neg_part a.coefficient ≡ 0

pub power_pos : (k : ℕ) → 1 ≤ 10 ^ k
power_pos zero = omega arith
power_pos (suc k) = omega (arith, power_pos k, pow-suc 10 k)

pub *ℤ-pos_nonneg : (a b : ℤ) → neg_part a ≡ 0 → neg_part b ≡ 0 → neg_part (a *ℤ b) ≡ 0
unfolding ◌*ℤ◌
*ℤ-pos_nonneg (pos m) (pos n) h k = ground arith
*ℤ-pos_nonneg (pos m) (negsuc n) h k = absurd (omega arith)
*ℤ-pos_nonneg (negsuc m) b h k = absurd (omega arith)

coefficient_nonneg :
    (c e : ℤ) → le_dec zero_dec (record { coefficient = c; exponent = e }) ≡ true → neg_part c ≡ 0
unfolding le_dec
coefficient_nonneg (pos n) e h = refl
coefficient_nonneg (negsuc n) e h = ground (arith, power_pos (pos_part e))

pub le-zero→IsNonneg : (a : Decimal) → le_dec zero_dec a ≡ true → IsNonneg a
le-zero→IsNonneg a h = coefficient_nonneg a.coefficient a.exponent h

pub IsNonneg→le-zero : (a : Decimal) → IsNonneg a → le_dec zero_dec a ≡ true
unfolding le_dec
IsNonneg→le-zero a h = ground arith

pub IsNonneg-fix : (a : Decimal) → IsNonneg a → IsNonneg (fix a)
unfolding fix
IsNonneg-fix a h = ground arith

pub IsNonneg-mul : (a b : Decimal) → IsNonneg a → IsNonneg b → IsNonneg (mul_dec a b)
unfolding mul_dec
IsNonneg-mul a b h k = IsNonneg-fix _ (*ℤ-pos_nonneg a.coefficient b.coefficient h k)

with_sign_nonneg : (c : ℤ) (n : ℕ) → neg_part c ≡ 0 → neg_part (with_sign c n) ≡ 0
with_sign_nonneg (pos m) n h = refl
with_sign_nonneg (negsuc m) n h = absurd (omega arith)

pub IsNonneg-div : (a b : Decimal) → IsNonneg a → IsNonneg b → IsNonneg (div_dec a b)
unfolding div_dec
IsNonneg-div a b h k =
    IsNonneg-fix _ (with_sign_nonneg _ _ (*ℤ-pos_nonneg a.coefficient b.coefficient h k))
