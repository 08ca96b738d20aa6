-- ===== src/Decimal.antt =====
-- Python's `decimal.Decimal`, finite values, in the default context: 28 significant digits and
-- ROUND_HALF_EVEN. A value is coefficient * 10 ^ exponent, and 5.00 and 5.0 are two values with
-- equal amounts, as in Python. Comparisons are exact; results of operations are rounded.
pub mod Order
pub mod Sign
use hermes_personal_options.Common.{
  ℕ, zero, suc, ◌+◌, ◌-◌, ◌*◌, ◌/◌, ◌%◌, ◌^◌, Bool, true, false, ◌&&◌, ◌||◌, not, ltb, leb, ◌==◌,
  if◌then◌else◌,
}
use hermes_personal_options.Common.Int.{
  ℤ, pos, negsuc, pos_part, neg_part, ◌+ℤ◌, ◌-ℤ◌, ◌*ℤ◌, ltb_ℤ, leb_ℤ, magnitude,
}

pub record Decimal : Type 0 where
  pub coefficient : ℤ
  pub exponent : ℤ

-- `decimal_of n k` is the literal with the digits of n and k of them behind the point.
abbrev pub decimal_of : ℕ → ℕ → Decimal
decimal_of n zero = record { coefficient = pos n; exponent = pos 0 }
decimal_of n (suc k) = record { coefficient = pos n; exponent = negsuc k }

abbrev pub zero_dec : Decimal
zero_dec = decimal_of 0 0

-- The coefficient over the power of ten that a pair of exponents calls for.
unfoldable pub scaled : Decimal → ℤ → ℤ
scaled a e = a.coefficient *ℤ pos (10 ^ (pos_part a.exponent + neg_part e))

-- a <= b, exactly.
unfoldable pub le_dec : Decimal → Decimal → Bool
unfolding scaled ◌*ℤ◌
le_dec a b = leb_ℤ (scaled a b.exponent) (scaled b a.exponent)

-- a < b
abbrev pub lt_dec : Decimal → Decimal → Bool
lt_dec a b = not (le_dec b a)

-- a == b
abbrev pub eq_dec : Decimal → Decimal → Bool
eq_dec a b = le_dec a b && le_dec b a

-- The number of decimal digits of n, with fuel: n itself is enough, since n / 10 < n.
num_digits_from : ℕ → ℕ → ℕ
num_digits_from zero n = 1
num_digits_from (suc fuel) n =
    let longer = suc (num_digits_from fuel (n / 10)) in if ltb n 10 then 1 else longer

unfoldable pub num_digits : ℕ → ℕ
unfolding num_digits_from
num_digits n = num_digits_from n n

abbrev pub precision : ℕ
precision = 28

-- n without its last k digits, rounded to the nearest, and half-way cases to the even digit.
unfoldable pub round_half_even : ℕ → ℕ → ℕ
round_half_even n k =
    let q = n / 10 ^ k in
    let r = n % 10 ^ k in
    if ltb (10 ^ k) (2 * r) || (2 * r == 10 ^ k && q % 2 == 1) then q + 1 else q

abbrev with_sign : ℤ → ℕ → ℤ
with_sign (pos _) n = pos n
with_sign (negsuc _) n = pos 0 -ℤ pos n

-- `_fix`: a coefficient of more than 28 digits is rounded to 28.
unfoldable pub fix : Decimal → Decimal
unfolding num_digits round_half_even ◌+ℤ◌ ◌-ℤ◌
fix a =
    let excess = num_digits (magnitude a.coefficient) - precision in
    if excess == 0 then a else record {
      coefficient = with_sign a.coefficient (round_half_even (magnitude a.coefficient) excess);
      exponent = a.exponent +ℤ pos excess;
    }

-- The lower of two exponents.
abbrev pub min_exponent : ℤ → ℤ → ℤ
min_exponent d e = if leb_ℤ d e then d else e

-- The coefficient of `a` at a lower exponent.
abbrev at_exponent : Decimal → ℤ → ℤ
at_exponent a e = a.coefficient *ℤ pos (10 ^ pos_part (a.exponent -ℤ e))

unfoldable pub add_dec : Decimal → Decimal → Decimal
unfolding fix ◌*ℤ◌ ◌+ℤ◌ ◌-ℤ◌
add_dec a b =
    let e = min_exponent a.exponent b.exponent in
    fix (record { coefficient = at_exponent a e +ℤ at_exponent b e; exponent = e })

unfoldable pub sub_dec : Decimal → Decimal → Decimal
unfolding fix ◌*ℤ◌ ◌+ℤ◌ ◌-ℤ◌
sub_dec a b =
    let e = min_exponent a.exponent b.exponent in
    fix (record { coefficient = at_exponent a e -ℤ at_exponent b e; exponent = e })

unfoldable pub mul_dec : Decimal → Decimal → Decimal
unfolding fix ◌*ℤ◌ ◌+ℤ◌
mul_dec a b =
    fix
      (record { coefficient = a.coefficient *ℤ b.coefficient; exponent = a.exponent +ℤ b.exponent })

-- The quotient of magnitudes at 29 digits or more, its last digit made sticky: a remainder is kept
-- visible to the rounding that follows. An exact quotient keeps its trailing zeros here, where
-- Python strips them; the amount is the same.
unfoldable pub sticky_quotient : ℕ → ℕ → ℕ
sticky_quotient n d = let q = n / d in if not (n % d == 0) && q % 5 == 0 then q + 1 else q

-- a / b for a divisor that is not 0 (the source divides by positive amounts only).
unfoldable pub div_dec : Decimal → Decimal → Decimal
unfolding fix sticky_quotient ◌*ℤ◌ ◌+ℤ◌ ◌-ℤ◌
div_dec a b =
    let m = magnitude a.coefficient in
    let n = magnitude b.coefficient in
    let shift = pos (num_digits n + precision + 1) -ℤ pos (num_digits m) in
    let q = sticky_quotient (m * 10 ^ pos_part shift) (n * 10 ^ neg_part shift) in
    fix (record {
      coefficient = with_sign (a.coefficient *ℤ b.coefficient) q;
      exponent = a.exponent -ℤ b.exponent -ℤ shift;
    })

unfoldable pub neg_dec : Decimal → Decimal
unfolding fix ◌-ℤ◌
neg_dec a = fix (record { coefficient = pos 0 -ℤ a.coefficient; exponent = a.exponent })

unfoldable pub abs_dec : Decimal → Decimal
unfolding fix
abs_dec a = fix (record { coefficient = pos (magnitude a.coefficient); exponent = a.exponent })

-- The product with a Python `int`.
abbrev pub scale_dec : Decimal → ℕ → Decimal
scale_dec a n = mul_dec a (decimal_of n 0)
