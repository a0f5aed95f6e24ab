-- ===== src/Businesses/Windows.antt =====
-- The periods of the partner portal: src/modules/businesses/business-period.util.ts. Windows that
-- would begin before 1970 are cut off there.
use sidequest_demo_be.Common.{
  ℕ, ◌-◌, ◌*◌, ◌≤◌, ◌≡◌, refl, max, Bool, true, false, ◌&&◌, arith, leb, ltb,
}
use sidequest_demo_be.Dates.{ms_day, utc_day, utc_date, start_of_utc_month}

pub data BusinessMetricsPeriod : Type 0 where
  month seven_d thirty_d ninety_d : BusinessMetricsPeriod

pub record DateRange : Type 0 where
  pub start : ℕ
  pub end_exclusive : ℕ

pub record Windows : Type 0 where
  pub current : DateRange
  pub previous : DateRange

abbrev pub range : ℕ → ℕ → DateRange
range start end_exclusive = record { start = start; end_exclusive = end_exclusive }

-- the windows that end now, of a number of days each
abbrev pub rolling : ℕ → ℕ → Windows
rolling days now = record {
  current = range (now - days * ms_day) now;
  previous = range (now - days * ms_day - days * ms_day) (now - days * ms_day);
}

unfoldable pub current_and_previous_window : BusinessMetricsPeriod → ℕ → Windows
current_and_previous_window month now =
    let month_start = start_of_utc_month now in
    let length = max 0 (now - month_start) in
    record { current = range month_start now; previous = range (month_start - length) month_start }
current_and_previous_window seven_d now = rolling 7 now
current_and_previous_window thirty_d now = rolling 30 now
current_and_previous_window ninety_d now = rolling 90 now

-- `createdAt >= start AND createdAt < endExclusive`
abbrev pub is_within : DateRange → ℕ → Bool
is_within r at = leb r.start at && ltb at r.end_exclusive

month_start-le : (now : ℕ) → start_of_utc_month now ≤ now
unfolding start_of_utc_month
month_start-le now =
    let day = utc_day now in
    let before : day - (utc_date day - 1) ≤ day = omega arith in omega arith

-- The current window ends now; the previous one ends where it starts, and is as long as it, provided
-- that as much time has passed since 1970; and no time is in both.
pub windows_lem :
    (period : BusinessMetricsPeriod) (now : ℕ)
    → let w = current_and_previous_window period now in
      now - w.current.start ≤ w.current.start
      → (w.current.end_exclusive ≡ now)
        × (w.current.start ≤ now)
        × (w.previous.end_exclusive ≡ w.current.start)
        × (w.previous.end_exclusive - w.previous.start ≡ w.current.end_exclusive - w.current.start)
        × ((at : ℕ) → is_within w.current at ≡ true → is_within w.previous at ≡ false)
unfolding current_and_previous_window
windows_lem month now h =
    (refl, month_start-le now, refl, omega (arith, month_start-le now), λ at k. ground arith)
windows_lem seven_d now h = (refl, omega arith, refl, omega arith, λ at k. ground arith)
windows_lem thirty_d now h = (refl, omega arith, refl, omega arith, λ at k. ground arith)
windows_lem ninety_d now h = (refl, omega arith, refl, omega arith, λ at k. ground arith)
