-- ===== src/Float64.antt =====
-- Binary floating point (the `float` of Python) for amounts that are not negative: 53 significant
-- bits, rounded to the nearest, half-way cases to even. The code uses it in one place, the age of a
-- timestamp in milliseconds; no amount there comes near the ends of the exponent's range.
use hermes_personal_options.Common.{
  ℕ, zero, suc, ◌+◌, ◌-◌, ◌*◌, ◌/◌, ◌%◌, ◌^◌, ◌&&◌, ◌||◌, ltb, leb, ◌==◌, if◌then◌else◌, ◌≡◌, refl,
}

-- mantissa * 2 ^ up / 2 ^ down
pub record Float64 : Type 0 where
  pub mantissa : ℕ
  pub up : ℕ
  pub down : ℕ

-- The number of bits of n, with fuel: n is enough, since n / 2 < n.
num_bits_from : ℕ → ℕ → ℕ
num_bits_from zero n = 0
num_bits_from (suc fuel) n =
    let longer = suc (num_bits_from fuel (n / 2)) in if n == 0 then 0 else longer

unfoldable pub num_bits : ℕ → ℕ
unfolding num_bits_from
num_bits n = num_bits_from n n

-- n / d to the nearest integer, half-way cases to even.
unfoldable pub nearest : ℕ → ℕ → ℕ
nearest n d =
    let q = n / d in
    let r = n % d in if ltb d (2 * r) || (2 * r == d && q % 2 == 1) then q + 1 else q

-- n / d rounded to a float. The first estimate of the scale may give 54 bits; then one less is used.
unfoldable pub round_quotient : ℕ → ℕ → Float64
unfolding num_bits nearest
round_quotient n d =
    let up = 53 + num_bits d - num_bits n in
    let down = num_bits n - (53 + num_bits d) in
    let wide = leb (2 ^ 53) (n * 2 ^ up / (d * 2 ^ down)) in
    let up' = if wide then up - 1 else up in
    let down' = if wide && up == 0 then down + 1 else down in
    record { mantissa = nearest (n * 2 ^ up') (d * 2 ^ down'); up = down'; down = up' }

-- The product with an integer.
unfoldable pub mul_float : Float64 → ℕ → Float64
unfolding round_quotient
mul_float x k = round_quotient (x.mantissa * 2 ^ x.up * k) (2 ^ x.down)

-- `int(x)`
unfoldable pub truncate : Float64 → ℕ
truncate x = x.mantissa * 2 ^ x.up / 2 ^ x.down

-- `int(timedelta(microseconds=us).total_seconds() * 1000)`
unfoldable pub whole_ms : ℕ → ℕ
unfolding round_quotient mul_float truncate
whole_ms us = truncate (mul_float (round_quotient us 1000000) 1000)

whole_ms_exact : whole_ms 500999 ≡ 500
unfolding whole_ms
whole_ms_exact = refl

-- 1.001 * 1000 is 1000.9999999999999.
whole_ms_short : whole_ms 1001000 ≡ 1000
unfolding whole_ms
whole_ms_short = refl

whole_ms_zero : whole_ms 0 ≡ 0
unfolding whole_ms
whole_ms_zero = refl
