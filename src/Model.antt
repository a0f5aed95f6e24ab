-- ===== src/Model.antt =====
-- The rows of prisma/schema.prisma that the services read and write. An identifier is a number (the
-- services only compare the strings), a date is its time in milliseconds, and `F` stands for the
-- floating-point numbers.
use Prim.Native.String.{String}
use sidequest_demo_be.Common.{ℕ, Bool, true, false, Option, none, some, List, ◌==◌}
use sidequest_demo_be.Common.Int.{ℤ}
use sidequest_demo_be.Common.Text.{Text}
use sidequest_demo_be.Gamification.{Ratio}

pub data UserRole : Type 0 where
  user moderator admin business_owner : UserRole

pub data UserStatus : Type 0 where
  active suspended deleted : UserStatus

pub data QuestDifficulty : Type 0 where
  easy medium hard epic : QuestDifficulty

pub data QuestStatus : Type 0 where
  draft published archived : QuestStatus

pub data QuestCompletionStatus : Type 0 where
  started completed abandoned expired : QuestCompletionStatus

pub data FriendshipStatus : Type 0 where
  pending accepted blocked : FriendshipStatus

pub data InviteStatus : Type 0 where
  pending accepted expired cancelled : InviteStatus

pub data AchievementType : Type 0 where
  quest_count xp_threshold category_explorer location_visits social streak custom : AchievementType

pub data BusinessStatus : Type 0 where
  pending_verification verified rejected suspended : BusinessStatus

-- `emailVerifiedAt`, which no service reads, and `updatedAt`, which the client writes in every table,
-- are left out.
pub record User : Type 0 where
  pub email : Text
  pub username : Text
  pub password_hash : Text
  pub display_name : Option Text
  pub avatar_url : Option Text
  pub bio : Option Text
  pub role : UserRole
  pub status : UserStatus
  pub primary_city : Text
  pub xp : ℕ
  pub level : ℕ
  pub quests_done : ℕ
  pub title_override : Option Text
  pub streak_days : ℕ
  pub longest_streak_days : ℕ
  pub places_visited : ℕ
  pub distance_walked_m : ℕ
  pub last_quest_completed_at : Option ℕ
  pub last_login_at : Option ℕ
  pub refresh_token_hash : Option Text
  pub last_seen_at : Option ℕ
  pub created_at : ℕ

pub record QuestLocation (F : Type 0) : Type 0 where
  pub id : ℕ
  pub name : Option String
  pub address : Option String
  pub latitude : F
  pub longitude : F
  pub radius_m : ℕ
  pub order_index : ℕ

pub record QuestCategory : Type 0 where
  pub slug : String
  pub name : String
  pub description : Option String
  pub icon_url : Option String
  pub cover_image_url : Option String
  pub color_hex : Option String

pub record Business (F : Type 0) : Type 0 where
  pub slug : String
  pub name : String
  pub description : Option String
  pub website_url : Option String
  pub logo_url : Option String
  pub status : BusinessStatus
  pub address : Option String
  pub latitude : Option F
  pub longitude : Option F
  pub owner_id : Option ℕ
  pub onboarding_started_at : Option ℕ
  pub created_at : ℕ

-- One visit of a partner's place, without its `source`, which no query reads.
pub record BusinessVisit : Type 0 where
  pub business_id : ℕ
  pub quest_id : Option ℕ
  pub user_id : Option ℕ
  pub created_at : ℕ

-- `AchievementSummaryDto`, and what `QUEST_INCLUDE` selects of an achievement
pub record AchievementSummary : Type 0 where
  pub id : ℕ
  pub slug : String
  pub name : String
  pub icon_url : Option String
  pub xp_bonus : ℕ

-- A quest with its locations and its reward achievements, the rows of `QuestLocation` and
-- `QuestRewardAchievement` that point at it.
pub record Quest (F : Type 0) : Type 0 where
  pub slug : String
  pub title : String
  pub summary : Option String
  pub description : String
  pub difficulty : QuestDifficulty
  pub status : QuestStatus
  pub xp_reward : ℕ
  pub estimated_duration_min : Option ℕ
  pub image_url : Option String
  pub cover_image_url : Option String
  pub author_id : Option ℕ
  pub category_id : Option ℕ
  pub business_id : Option ℕ
  pub tags : List String
  pub rating_avg : Option Ratio
  pub rating_count : ℕ
  pub published_at : Option ℕ
  pub starts_at : Option ℕ
  pub ends_at : Option ℕ
  pub featured_at : Option ℕ
  pub created_at : ℕ
  pub locations : List (QuestLocation F)
  pub reward_achievements : List AchievementSummary

-- `proof`: `{ checkIns: true }`, or the JSON that the client sent, as text.
pub data Proof : Type 0 where
  check_ins : Proof
  payload : Text → Proof

-- Unique under (user, quest).
pub record QuestCompletion : Type 0 where
  pub status : QuestCompletionStatus
  pub started_at : ℕ
  pub completed_at : Option ℕ
  pub xp_awarded : ℕ
  pub duration_min : Option ℤ
  pub proof : Option Proof
  pub checked_in_location_ids : List ℕ

-- Unique under (user, location).
pub record QuestLocationCheckIn (F : Type 0) : Type 0 where
  pub quest_id : ℕ
  pub latitude : F
  pub longitude : F
  pub accuracy_m : Option ℕ
  pub created_at : ℕ

-- Unique under (user, quest).
pub record QuestRating : Type 0 where
  pub score : ℕ
  pub comment : Option String
  pub created_at : ℕ

pub record Friendship : Type 0 where
  pub requester_id : ℕ
  pub addressee_id : ℕ
  pub status : FriendshipStatus
  pub responded_at : Option ℕ
  pub created_at : ℕ

pub record Invite : Type 0 where
  pub token : Text
  pub inviter_id : ℕ
  pub email : Text
  pub status : InviteStatus
  pub sent_at : ℕ
  pub accepted_at : Option ℕ
  pub invitee_id : Option ℕ

-- Unique under (user, achievement).
pub record UserAchievement : Type 0 where
  pub unlocked_at : Option ℕ
  pub progress : ℕ

-- `ParticipantSummaryDto`
pub record ParticipantSummary : Type 0 where
  pub id : ℕ
  pub username : Text
  pub display_name : Option Text
  pub avatar_url : Option Text
  pub level : ℕ

-- `NotificationDataDto`: the JSON of a notification's `data`, with the fields that were given
pub record NotificationData : Type 0 where
  pub quest_id : Option ℕ
  pub xp_awarded : Option ℕ
  pub achievement_id : Option ℕ
  pub slug : Option String
  pub friendship_id : Option ℕ
  pub from_user : Option ParticipantSummary
  pub previous_level : Option ℕ
  pub new_level : Option ℕ

pub record Notification : Type 0 where
  pub user_id : ℕ
  pub type : String
  pub title : String
  pub payload : NotificationData
  pub read_at : Option ℕ
  pub created_at : ℕ

abbrev pub is_published : QuestStatus → Bool
is_published published = true
is_published _ = false

abbrev pub is_completed : QuestCompletionStatus → Bool
is_completed completed = true
is_completed _ = false

abbrev pub is_started : QuestCompletionStatus → Bool
is_started started = true
is_started _ = false

-- a reference that is given, and that is the one asked for
abbrev pub refers_to : Option ℕ → ℕ → Bool
refers_to none id = false
refers_to (some other) id = other == id

abbrev pub is_accepted : FriendshipStatus → Bool
is_accepted accepted = true
is_accepted _ = false
