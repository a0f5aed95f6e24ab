-- ===== src/Tests/Levels.antt =====
-- Examples for the levels of src/common/gamification/xp.ts.
use sidequest_demo_be.Common.{◌≤◌, ◌↔◌, arith}
use sidequest_demo_be.Gamification.{xp_for_level, level_from_xp}
use sidequest_demo_be.Gamification.Levels.{level_from_xp_iff}

level_from_xp_iff_example : (3 ≤ level_from_xp 450) ↔ (xp_for_level 3 ≤ 450)
level_from_xp_iff_example = level_from_xp_iff 3 450 (omega arith)
