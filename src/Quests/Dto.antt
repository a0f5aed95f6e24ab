-- ===== src/Quests/Dto.antt =====
-- What quests look like in answers, and the queries for them: src/modules/quests/dto and the
-- filters of src/modules/quests/quests.service.ts.
use Prim.Native.String.{String}
use text.Mathlib.Text.{◌==◌ as str_eq}
use sidequest_demo_be.Common.{
  ℕ, Bool, true, false, Option, none, some, List, [], ◌∷◌, if◌then◌else◌,
}
use sidequest_demo_be.Common.Text.{Text, text_eq}
use sidequest_demo_be.Gamification.{Ratio}
use sidequest_demo_be.Pagination.{PaginationQuery}
use sidequest_demo_be.Model.{
  QuestCategory, QuestDifficulty, QuestStatus, AchievementSummary, ParticipantSummary, User, draft,
  published, archived, easy, medium, hard, epic,
}

pub record QuestLocationDto (F : Type 0) : Type 0 where
  pub id : ℕ
  pub name : Option String
  pub address : Option String
  pub latitude : F
  pub longitude : F
  pub radius_m : ℕ
  pub order_index : ℕ
  pub distance_m : Option ℕ
  pub is_completed : Option Bool

pub record QuestCategoryDto : Type 0 where
  pub id : ℕ
  pub slug : String
  pub name : String
  pub description : Option String
  pub icon_url : Option String
  pub cover_image_url : Option String
  pub color_hex : Option String
  pub quest_count : ℕ

pub record QuestRewardsDto : Type 0 where
  pub xp : ℕ
  pub achievements : List AchievementSummary

pub record QuestDto (F : Type 0) : Type 0 where
  pub id : ℕ
  pub slug : String
  pub title : String
  pub summary : Option String
  pub description : String
  pub difficulty : QuestDifficulty
  pub status : QuestStatus
  pub xp_reward : ℕ
  pub estimated_duration_min : Option ℕ
  pub image_url : Option String
  pub cover_image_url : Option String
  pub category_id : Option ℕ
  pub business_id : Option ℕ
  pub author_id : Option ℕ
  pub published_at : Option ℕ
  pub created_at : ℕ
  pub locations : List (QuestLocationDto F)
  pub distance_m : Option ℕ
  pub tags : List String
  pub rating : Option Ratio
  pub rating_count : ℕ
  pub participant_count : ℕ
  pub participants : List ParticipantSummary
  pub category : Option QuestCategoryDto
  pub rewards : QuestRewardsDto

pub record ListQuestsDto : Type 0 where
  pub query : PaginationQuery
  pub search : Option Text
  pub status : Option QuestStatus
  pub difficulty : Option QuestDifficulty
  pub category_slug : Option String

pub record ListQuestsNearbyDto (F : Type 0) : Type 0 where
  pub lat : Option F
  pub lng : Option F
  pub radius_m : Option ℕ
  pub difficulty : Option QuestDifficulty
  pub category_slug : Option String

abbrev pub same_status : QuestStatus → QuestStatus → Bool
same_status draft draft = true
same_status published published = true
same_status archived archived = true
same_status _ _ = false

abbrev pub same_difficulty : QuestDifficulty → QuestDifficulty → Bool
same_difficulty easy easy = true
same_difficulty medium medium = true
same_difficulty hard hard = true
same_difficulty epic epic = true
same_difficulty _ _ = false

-- a filter that is left out lets every row through
abbrev pub passes : {A : Type 0} → Option A → (A → Bool) → Bool
passes none test = true
passes (some a) test = test a

-- `x ? ... : undefined` of a text, which is false where it is empty
abbrev pub nonempty : Option String → Option String
nonempty none = none
nonempty (some s) = if str_eq s "" then none else some s

abbrev pub nonempty_text : Option Text → Option Text
nonempty_text none = none
nonempty_text (some s) = if text_eq s [] then none else some s

-- `QuestCategoryDto.fromEntity`
abbrev pub category_dto : ℕ → QuestCategory → ℕ → QuestCategoryDto
category_dto id c quest_count = record {
  id = id;
  slug = c.slug;
  name = c.name;
  description = c.description;
  icon_url = c.icon_url;
  cover_image_url = c.cover_image_url;
  color_hex = c.color_hex;
  quest_count = quest_count;
}

abbrev pub summary_of : ℕ → User → ParticipantSummary
summary_of id u = record {
  id = id;
  username = u.username;
  display_name = u.display_name;
  avatar_url = u.avatar_url;
  level = u.level;
}

-- the user of a row, whom the foreign key keeps there
abbrev pub summary_row : ℕ → Option User → List ParticipantSummary → List ParticipantSummary
summary_row id none rest = rest
summary_row id (some u) rest = summary_of id u ∷ rest
