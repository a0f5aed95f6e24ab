-- ===== src/Achievements/Criteria.antt =====
-- Achievements, their criteria and their rows: the data of
-- src/modules/achievements/achievements.service.ts.
use Prim.Native.String.{String}
use text.Mathlib.Text.{◌==◌ as str_eq}
use sidequest_demo_be.Common.{
  ℕ, Bool, true, false, ◌&&◌, ◌||◌, Option, none, some, leb, ◌==◌, if◌then◌else◌, or_else,
}
use sidequest_demo_be.Gamification.{level_from_xp}
use sidequest_demo_be.Model.{
  QuestCompletion, Friendship, UserAchievement, AchievementType, is_completed, is_accepted,
}

pub record AchievementCriteria : Type 0 where
  pub min_quests : Option ℕ
  pub min_xp : Option ℕ
  pub min_level : Option ℕ
  pub min_locations : Option ℕ
  pub min_friends : Option ℕ
  pub min_streak_days : Option ℕ
  pub category_slug : Option String

pub record Achievement : Type 0 where
  pub id : ℕ
  pub slug : String
  pub name : String
  pub type : AchievementType
  pub criteria : AchievementCriteria
  pub target_value : Option ℕ
  pub xp_bonus : ℕ

pub record Evaluation : Type 0 where
  pub earned : Bool
  pub progress : ℕ

pub record Progress : Type 0 where
  pub current : ℕ
  pub target : ℕ

pub record UserAchievementDto : Type 0 where
  pub id : ℕ
  pub slug : String
  pub type : AchievementType
  pub xp_bonus : ℕ
  pub unlocked_at : Option ℕ
  pub progress : Option Progress

abbrev pub nothing : Evaluation
nothing = record { earned = false; progress = 0 }

-- `count >= min`, with the count as the progress, and nothing where the criterion is missing
abbrev pub at_least : Option ℕ → ℕ → Evaluation
at_least none count = nothing
at_least (some least) count = record { earned = leb least count; progress = count }

-- `min !== undefined && value >= min`
abbrev pub reaches : Option ℕ → ℕ → Bool
reaches none value = false
reaches (some least) value = leb least value

-- `minXp !== undefined ? xp : levelFromXp(xp)`
abbrev pub threshold_progress : Option ℕ → ℕ → ℕ
threshold_progress none xp = level_from_xp xp
threshold_progress (some _) xp = xp

-- `existing?.unlockedAt`
abbrev pub is_unlocked : Option UserAchievement → Bool
is_unlocked none = false
is_unlocked (some row) = elim row.unlocked_at [ none ↦ false | some _ ↦ true ]

abbrev pub unlocked_row : Achievement → ℕ → UserAchievement
unlocked_row a now = record { unlocked_at = some now; progress = or_else a.target_value 0 }

-- `{ status: ACCEPTED, OR: [{ requesterId }, { addresseeId }] }`
abbrev pub friend_of : ℕ → ℕ → Friendship → ℕ
friend_of user_id id f =
    if is_accepted f.status && (f.requester_id == user_id || f.addressee_id == user_id)
    then 1
    else 0

-- `{ userId, status: COMPLETED }`
abbrev pub completed_by : ℕ → ℕ × ℕ → QuestCompletion → ℕ
completed_by user_id k c = if k.0 == user_id && is_completed c.status then 1 else 0

-- `if (!categorySlug) ...`, which an empty text also is
abbrev pub slug_given : Option String → Option String
slug_given none = none
slug_given (some slug) = if str_eq slug "" then none else some slug

-- The progress that is shown: none once the achievement is unlocked, or without a target.
abbrev pub shown_progress : Achievement → Option UserAchievement → Option Progress
shown_progress a row = elim a.target_value [
  | none ↦ none
  | some target ↦ if is_unlocked row then none else elim row [
    | none ↦ some (record { current = 0; target = target })
    | some ua ↦ some (record { current = ua.progress; target = target })
  ]
]

abbrev pub unlocked_at_of : Option UserAchievement → Option ℕ
unlocked_at_of none = none
unlocked_at_of (some ua) = ua.unlocked_at
