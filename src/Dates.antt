-- ===== src/Dates.antt =====
-- The parts of `Date` in UTC that the services use. A date is its time in milliseconds since the
-- beginning of 1970, and not before it.
use Prim.Native.Nat.{ℕ, ◌+◌, ◌-◌, ◌*◌, ◌/◌, ◌%◌}

-- `MS_DAY`
abbrev pub ms_day : ℕ
ms_day = 86400000

-- the day of a time, counted from 1970-01-01
abbrev pub utc_day : ℕ → ℕ
utc_day time = time / ms_day

-- `getUTCDay` of a day: 0 is Sunday, and 1970-01-01 was a Thursday
abbrev pub utc_week_day : ℕ → ℕ
utc_week_day day = (day + 4) % 7

-- `getUTCDate` of a day, in the Gregorian calendar. Days are counted from 0000-03-01, in eras of 400
-- years whose years begin in March; `yoe` and `doy` are the year of the era and its day.
unfoldable pub utc_date : ℕ → ℕ
utc_date day =
    let doe = (day + 719468) % 146097 in
    let yoe = (doe + doe / 36524 - doe / 1460 - doe / 146096) / 365 in
    let doy = doe - (365 * yoe + yoe / 4 - yoe / 100) in
    let month = (5 * doy + 2) / 153 in doy - (153 * month + 2) / 5 + 1

-- `Date.UTC(d.getUTCFullYear(), d.getUTCMonth(), 1)`
unfoldable pub start_of_utc_month : ℕ → ℕ
start_of_utc_month time = (utc_day time - (utc_date (utc_day time) - 1)) * ms_day
