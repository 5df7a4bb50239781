-- ===== src/Retention/Calendar.antt =====
-- `_month` of backend/app/services/retention.py: the month of a time, in the proleptic Gregorian
-- calendar of `datetime`, as a number of months since the year 0.
use erp_iot.Base.{ℕ, ◌+◌, ◌-◌, ◌*◌, ◌/◌, ◌%◌}
use erp_iot.Base.Time.{Time, days}

-- Days are counted from March 1 of the year 0, in eras of 400 years, so a leap day ends a year.
abbrev pub year_of_era : ℕ → ℕ
year_of_era day = (day + day / 36524 - day / 1460 - day / 146096) / 365

abbrev pub day_of_year : ℕ → ℕ
day_of_year day = let year = year_of_era day in day + year / 100 - (365 * year + year / 4)

abbrev pub months_since : (era day : ℕ) → ℕ
months_since era day = 12 * (400 * era + year_of_era day) + (5 * day_of_year day + 2) / 153 + 2

unfoldable pub month : Time → ℕ
month at = let day = at / days 1 + 719468 in months_since (day / 146097) (day % 146097)
