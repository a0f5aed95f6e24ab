-- ===== src/Leaderboard/Periods.antt =====
-- The start of a leaderboard's week: src/modules/leaderboard/leaderboard.service.ts.
use sidequest_demo_be.Common.{refl, ℕ, ◌+◌, ◌*◌, ◌≤◌, ◌<◌, ◌≡◌, some, arith}
use sidequest_demo_be.Dates.{ms_day, utc_day, utc_week_day}
use sidequest_demo_be.Leaderboard.{week, week_start_day, leaderboard_period_start_utc}

week_start-Monday :
    (day : ℕ)
    → 6 ≤ day
    → (utc_week_day (week_start_day day) ≡ 1)
      × (week_start_day day ≤ day)
      × (day ≤ week_start_day day + 6)
week_start-Monday day h = (ground arith, ground arith, ground arith)

-- From the second week of 1970 on, a leaderboard's week starts at 00:00 of the Monday at or before
-- now, less than seven days ago.
pub week_start :
    (now : ℕ)
    → 6 ≤ utc_day now
    → (start : ℕ) × (leaderboard_period_start_utc week now ≡ some (start * ms_day))
      × (utc_week_day start ≡ 1)
      × (start * ms_day ≤ now)
      × (now < start * ms_day + 7 * ms_day)
unfolding leaderboard_period_start_utc
week_start now h =
    let (monday, before, after) = week_start-Monday (utc_day now) h in
    (week_start_day (utc_day now), refl, monday, omega arith, omega arith)
