-- ===== src/Quests/Streak.antt =====
-- `computeStreak` of src/modules/quests/quests.service.ts.
use sidequest_demo_be.Common.{
  ℕ, ◌-◌, ◌+◌, ◌*◌, ◌≤◌, ◌<◌, ◌≡◌, ◌↔◌, max, Option, none, some, arith, leb, ◌==◌, if◌then◌else◌,
}

abbrev pub ms_per_hour : ℕ
ms_per_hour = 3600000

-- `STREAK_WINDOW_HOURS`
abbrev pub streak_window_hours : ℕ
streak_window_hours = 36

-- `STREAK_RESET_HOURS`
abbrev pub streak_reset_hours : ℕ
streak_reset_hours = 48

-- Hours are compared through their milliseconds. Where `now` is before `last_at` the code's hours
-- are negative and within the window, as the 0 of `-` is.
unfoldable pub compute_streak : ℕ → Option ℕ → ℕ → ℕ
compute_streak current_streak none now = max 1 (if current_streak == 0 then 1 else current_streak)
compute_streak current_streak (some last_at) now =
    if leb (now - last_at) (streak_window_hours * ms_per_hour)
    then current_streak
    else if leb (now - last_at) (streak_reset_hours * ms_per_hour)
    then current_streak + 1
    else 1

-- For a streak of at least 1, a completion raises it exactly when it comes more than 36 and at most
-- 48 hours after the last one, and then by one; it starts again at 1 when more than 48 hours passed.
compute_streak_cases :
    (current last_at now : ℕ)
    → 1 ≤ current
    → ((current < compute_streak current (some last_at) now)
        ↔ ((last_at + 129600000 < now) × (now ≤ last_at + 172800000)))
      × (compute_streak current (some last_at) now ≤ current + 1)
      × (last_at + 172800000 < now → compute_streak current (some last_at) now ≡ 1)
unfolding compute_streak
compute_streak_cases current last_at now h =
    ((λ k. ground arith, λ k. ground arith), ground arith, λ k. ground arith)
