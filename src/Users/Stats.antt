-- ===== src/Users/Stats.antt =====
-- The figures of a user: `getStats` of src/modules/users/users.service.ts.
pub mod Counts
use Prim.Native.String.{String}
use text.Mathlib.Text.{◌==◌ as str_eq}
use sidequest_demo_be.Common.{
  ℕ, ◌+◌, Bool, true, false, ◌&&◌, ◌||◌, Option, none, some, List, [], ◌∷◌, ◌==◌, if◌then◌else◌,
}
use sidequest_demo_be.Common.Sorting.{Order, any_order, ascending, by, reversed, sort}
use sidequest_demo_be.Geo.{Float}
use sidequest_demo_be.Gamification.{Ratio, LevelProgress, progress_from_xp}
use sidequest_demo_be.Effects.{Action, not_found, gets, or_throw, ◌>>=◌}
use sidequest_demo_be.Store.{counted}
use sidequest_demo_be.Model.{
  User, QuestCategory, QuestCompletion, QuestCompletionStatus, Friendship, FriendshipStatus,
  UserAchievement, is_accepted, started, completed, abandoned, expired,
}
use sidequest_demo_be.World.{Database, World, find_user}
use sidequest_demo_be.Users.{has_status}

pub record CompletionBreakdownDto : Type 0 where
  pub started : ℕ
  pub completed : ℕ
  pub abandoned : ℕ
  pub expired : ℕ

pub record CategoryBreakdownItemDto : Type 0 where
  pub category_slug : String
  pub category_name : String
  pub completed : ℕ

pub record UserStatsDto (F : Type 0) : Type 0 where
  pub user_id : ℕ
  pub level : ℕ
  pub current_xp : ℕ
  pub xp_for_current_level : ℕ
  pub xp_for_next_level : ℕ
  pub xp_into_level : ℕ
  pub xp_to_next_level : ℕ
  pub progress_ratio : Ratio
  pub quests_done : ℕ
  pub achievements_unlocked : ℕ
  pub friends_count : ℕ
  pub streak_days : ℕ
  pub longest_streak_days : ℕ
  pub places_visited : ℕ
  pub distance_walked_km : F
  pub completions : CompletionBreakdownDto
  pub by_category : List CategoryBreakdownItemDto

-- one turn of the loop: the counter of the category grows, or a new one stands at the end
unfoldable pub count_category :
    QuestCategory → List CategoryBreakdownItemDto → List CategoryBreakdownItemDto
count_category c [] = record { category_slug = c.slug; category_name = c.name; completed = 1 } ∷ []
count_category c (item ∷ rest) =
    let later = count_category c rest in
    if str_eq item.category_slug c.slug
    then record item { completed = item.completed + 1 } ∷ rest
    else item ∷ later

-- `if (!category) continue`
abbrev pub count_row :
    Option QuestCategory → List CategoryBreakdownItemDto → List CategoryBreakdownItemDto
count_row none counters = counters
count_row (some c) counters = count_category c counters

abbrev pub is_accepted_friend : ℕ → ℕ → Friendship → Bool
is_accepted_friend user_id id f =
    is_accepted f.status && (f.requester_id == user_id || f.addressee_id == user_id)

module _ (fl : Float) (db : Database fl.F) where
  -- `quest.category` of a completion
  abbrev pub category_of_quest : World db → ℕ → Option QuestCategory
  category_of_quest w quest_id = elim (db.quest.find quest_id w.quests) [
    | none ↦ none
    | some q ↦ elim q.category_id [ none ↦ none | some id ↦ db.quest_category.find id w.categories ]
  ]

  unfoldable pub count_rows :
      World db
      → List CategoryBreakdownItemDto
      → List ((ℕ × ℕ) × QuestCompletion)
      → List CategoryBreakdownItemDto
  count_rows w counters [] = counters
  count_rows w counters (((user_id, quest_id), c) ∷ rest) =
      count_rows w (count_row (category_of_quest w quest_id) counters) rest

  abbrev pub most_completed : Order CategoryBreakdownItemDto
  most_completed = reversed (by (λ c. c.completed) ascending)

  unfoldable pub by_category : ℕ → World db → List CategoryBreakdownItemDto
  by_category user_id w = sort most_completed (
      count_rows w []
        (db.quest_completion.find_many (has_status user_id completed) any_order w.completions))

  abbrev pub count_status : ℕ → World db → QuestCompletionStatus → ℕ
  count_status user_id w status =
      db.quest_completion.total (counted (has_status user_id status)) w.completions

  unfoldable pub breakdown : ℕ → World db → CompletionBreakdownDto
  breakdown user_id w = record {
    started = count_status user_id w started;
    completed = count_status user_id w completed;
    abandoned = count_status user_id w abandoned;
    expired = count_status user_id w expired;
  }

  -- `Math.round((distanceWalkedM / 1000) * 100) / 100`
  abbrev pub kilometers : ℕ → fl.F
  kilometers meters =
      fl.div (fl.of_ℕ (fl.round (fl.mul (fl.div (fl.of_ℕ meters) (fl.of_ℕ 1000)) (fl.of_ℕ 100))))
        (fl.of_ℕ 100)

  abbrev pub stats_of : ℕ → User → World db → UserStatsDto fl.F
  stats_of user_id user w =
      let progress = progress_from_xp user.xp in
      record {
        user_id = user_id;
        level = progress.level;
        current_xp = progress.current_xp;
        xp_for_current_level = progress.xp_for_current_level;
        xp_for_next_level = progress.xp_for_next_level;
        xp_into_level = progress.xp_into_level;
        xp_to_next_level = progress.xp_to_next_level;
        progress_ratio = progress.progress_ratio;
        quests_done = user.quests_done;
        achievements_unlocked =
            db.user_achievement.total (counted (λ k a. k.0 == user_id)) w.user_achievements;
        friends_count = db.friendship.total (counted (is_accepted_friend user_id)) w.friendships;
        streak_days = user.streak_days;
        longest_streak_days = user.longest_streak_days;
        places_visited = user.places_visited;
        distance_walked_km = kilometers user.distance_walked_m;
        completions = breakdown user_id w;
        by_category = by_category user_id w;
      }

  unfoldable pub get_stats : ℕ → Action (World db) (UserStatsDto fl.F)
  get_stats user_id = do
    row ← find_user db user_id
    user ← or_throw row (not_found "User not found")
    gets (stats_of user_id user)
