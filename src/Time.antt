-- ===== src/Time.antt =====
-- Datetimes of the standard library, in microseconds. An aware datetime has a wall clock reading
-- (counted from 0001-01-01T00:00) and the offset of its zone from UTC; two of them are compared by
-- the instant that they name. A naive datetime has no zone.
use hermes_personal_options.Common.{ℕ, ◌+◌, ◌/◌, ◌%◌, Bool, ◌&&◌}
use hermes_personal_options.Common.Int.{ℤ, pos, ◌-ℤ◌, ltb_ℤ, leb_ℤ}

pub record AwareDateTime : Type 0 where
  pub wall_us : ℕ
  pub utc_offset_us : ℤ

pub data DateTime : Type 0 where
  naive : ℕ → DateTime
  aware : AwareDateTime → DateTime

abbrev pub us_per_ms : ℕ
us_per_ms = 1000

abbrev pub us_per_second : ℕ
us_per_second = 1000000

abbrev pub us_per_minute : ℕ
us_per_minute = 60000000

abbrev pub us_per_day : ℕ
us_per_day = 86400000000

-- The instant, in microseconds of UTC.
unfoldable pub instant : AwareDateTime → ℤ
unfolding ◌-ℤ◌
instant t = pos t.wall_us -ℤ t.utc_offset_us

abbrev pub before : AwareDateTime → AwareDateTime → Bool
before s t = ltb_ℤ (instant s) (instant t)

-- s <= t
abbrev pub not_after : AwareDateTime → AwareDateTime → Bool
not_after s t = leb_ℤ (instant s) (instant t)

abbrev pub same_instant : AwareDateTime → AwareDateTime → Bool
same_instant s t = not_after s t && not_after t s

-- t - s, as a timedelta in microseconds.
unfoldable pub elapsed_us : AwareDateTime → AwareDateTime → ℤ
unfolding ◌-ℤ◌
elapsed_us s t = instant t -ℤ instant s

-- `t.date()`, as the ordinal of the day in the zone of t.
abbrev pub date_ordinal : AwareDateTime → ℕ
date_ordinal t = t.wall_us / us_per_day

-- `t + timedelta(...)` moves the wall clock.
abbrev pub plus_us : AwareDateTime → ℕ → AwareDateTime
plus_us t d = record t { wall_us = t.wall_us + d }

-- `t.hour * 60 + t.minute`
abbrev pub minutes_since_midnight : AwareDateTime → ℕ
minutes_since_midnight t = t.wall_us % us_per_day / us_per_minute

-- An instant given in UTC.
abbrev pub utc : ℕ → AwareDateTime
utc us = record { wall_us = us; utc_offset_us = pos 0 }
