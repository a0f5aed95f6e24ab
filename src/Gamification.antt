-- ===== src/Gamification.antt =====
-- The XP curve of src/common/gamification/xp.ts. XP and levels are whole and not negative.
-- `Math.sqrt` is read through its floor: `Math.floor(Math.sqrt(xp / 100))` is the greatest `k`
-- with `k * k <= xp / 100`, and rounding `xp / 100` down first does not change it.
pub mod Levels
pub mod Titles
use sidequest_demo_be.Common.{ℕ, zero, suc, ◌+◌, ◌-◌, ◌*◌, ◌/◌, max, Bool, leb, ltb, if◌then◌else◌}

-- `MIN_LEVEL`
abbrev pub min_level : ℕ
min_level = 1

-- The search for `Math.floor(Math.sqrt(q))` climbs from `k` while the next square fits.
climb : ℕ → ℕ → ℕ → ℕ
climb zero k q = k
climb (suc fuel) k q =
    let higher = climb fuel (k + 1) q in if leb ((k + 1) * (k + 1)) q then higher else k

unfoldable pub floor_sqrt : ℕ → ℕ
unfolding climb
floor_sqrt q = climb q 0 q

unfoldable pub xp_for_level : ℕ → ℕ
xp_for_level level = let clamped = max min_level level in 100 * ((clamped - 1) * (clamped - 1))

unfoldable pub level_from_xp : ℕ → ℕ
level_from_xp xp = if leb xp 0 then min_level else floor_sqrt (xp / 100) + 1

-- A quotient of two numbers, `num / den`.
pub record Ratio : Type 0 where
  pub num : ℕ
  pub den : ℕ

pub record LevelProgress : Type 0 where
  pub level : ℕ
  pub current_xp : ℕ
  pub xp_for_current_level : ℕ
  pub xp_for_next_level : ℕ
  pub xp_into_level : ℕ
  pub xp_to_next_level : ℕ
  pub progress_ratio : Ratio

-- `Math.min(1, into / span)`
ratio_up_to_one : ℕ → ℕ → Ratio
ratio_up_to_one into span =
    if leb span into then record { num = 1; den = 1 } else record { num = into; den = span }

-- Every difference is one that the code takes or clamps at 0; that `safeXp - xpForCurrentLevel`
-- does not go below 0 is `level_from_xp_iff` of the child module.
unfoldable pub progress_from_xp : ℕ → LevelProgress
unfolding ratio_up_to_one
progress_from_xp xp =
    let level = level_from_xp xp in
    let current = xp_for_level level in
    let next = xp_for_level (level + 1) in
    let span = max 1 (next - current) in
    record {
      level = level;
      current_xp = xp;
      xp_for_current_level = current;
      xp_for_next_level = next;
      xp_into_level = xp - current;
      xp_to_next_level = next - xp;
      progress_ratio = ratio_up_to_one (xp - current) span;
    }

pub record LevelUpResult : Type 0 where
  pub leveled_up : Bool
  pub previous_level : ℕ
  pub new_level : ℕ

unfoldable pub level_up_result : ℕ → ℕ → LevelUpResult
level_up_result previous_xp delta_xp =
    let previous = level_from_xp previous_xp in
    let next = level_from_xp (previous_xp + delta_xp) in
    record { leveled_up = ltb previous next; previous_level = previous; new_level = next }
