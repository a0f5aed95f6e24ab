-- ===== src/Achievements.antt =====
-- Achievements: `evaluateForUser`, `unlock`, `evaluateWithProgress`, `listForUser` and the listeners
-- of src/modules/achievements/achievements.service.ts. `definitions` is what
-- `AchievementsRepository.listAll` reads, with the criteria that `parseCriteria` finds in a row. An
-- event names a user who exists, so the foreign key of a new row is not checked.
mod Criteria
pub mod Steps
pub mod Unlocking
pub mod Payouts
pub mod Parsing
pub use Criteria.*
use Prim.Native.String.{String}
use text.Mathlib.Text.{◌==◌ as str_eq}
use sidequest_demo_be.Common.{
  ℕ, ◌+◌, Bool, true, false, not, ◌&&◌, ◌||◌, Option, none, some, List, [], ◌∷◌, leb, ltb, ◌==◌,
  length, if◌then◌else◌, or_else,
}
use sidequest_demo_be.Gamification.{level_from_xp}
use sidequest_demo_be.Effects.{Action, pure, gets, modify, when, ◌>>=◌, ◌>>◌, Transactions}
use sidequest_demo_be.Events.{
  AppEvent, quest_completed, quest_location_checked_in, friend_request_accepted, level_up,
  achievement_unlocked,
}
use sidequest_demo_be.Model.{
  User, Quest, QuestCategory, QuestCompletion, Friendship, FriendshipStatus, UserAchievement,
  AchievementType, quest_count, xp_threshold, category_explorer, location_visits, social, streak,
  custom, accepted, is_completed,
}
use sidequest_demo_be.World.{Database, World, emit, find_user, update_user}

module _ {F : Type 0} (db : Database F) where
  abbrev pub category_is : String → Option (Quest F) → World db → Bool
  category_is slug none w = false
  category_is slug (some q) w = elim q.category_id [
    | none ↦ false
    | some id ↦ elim (db.quest_category.find id w.categories) [
      | none ↦ false
      | some c ↦ str_eq c.slug slug
    ]
  ]

  abbrev pub stops_of : Option (Quest F) → ℕ
  stops_of none = 0
  stops_of (some q) = length q.locations

  abbrev pub completed_in : ℕ → String → World db → ℕ × ℕ → QuestCompletion → ℕ
  completed_in user_id slug w k c =
      if k.0 == user_id && is_completed c.status && category_is slug (db.quest.find k.1 w.quests) w
      then 1
      else 0

  -- A location belongs to one quest and a quest has one row, so the set of the locations of all
  -- completed quests has as many elements as these quests have locations.
  abbrev pub stops_completed : ℕ → World db → ℕ × ℕ → QuestCompletion → ℕ
  stops_completed user_id w k c =
      if k.0 == user_id && is_completed c.status then stops_of (db.quest.find k.1 w.quests) else 0

  unfoldable pub evaluate_type :
      AchievementType → AchievementCriteria → ℕ → Option User → World db → Evaluation
  evaluate_type quest_count criteria user_id user w =
      at_least criteria.min_quests (db.quest_completion.total (completed_by user_id) w.completions)
  evaluate_type xp_threshold criteria user_id none w = nothing
  evaluate_type xp_threshold criteria user_id (some u) w = record {
    earned = reaches criteria.min_xp u.xp || reaches criteria.min_level (level_from_xp u.xp);
    progress = threshold_progress criteria.min_xp u.xp;
  }
  evaluate_type category_explorer criteria user_id user w =
      elim (slug_given criteria.category_slug) [
        | none ↦ nothing
        | some slug ↦
            at_least criteria.min_quests
              (db.quest_completion.total (completed_in user_id slug w) w.completions)
      ]
  evaluate_type location_visits criteria user_id user w =
      at_least criteria.min_locations
        (db.quest_completion.total (stops_completed user_id w) w.completions)
  evaluate_type social criteria user_id user w =
      at_least criteria.min_friends (db.friendship.total (friend_of user_id) w.friendships)
  evaluate_type streak criteria user_id none w = nothing
  evaluate_type streak criteria user_id (some u) w = at_least criteria.min_streak_days u.streak_days
  evaluate_type custom criteria user_id user w = nothing

  unfoldable pub evaluate_with_progress : Achievement → ℕ → World db → Evaluation
  evaluate_with_progress a user_id w =
      evaluate_type a.type a.criteria user_id (db.user.find user_id w.users) w

  abbrev pub save_user_achievement : ℕ → ℕ → UserAchievement → World db → World db
  save_user_achievement user_id id row w = record w {
    user_achievements = db.user_achievement.save (user_id, id) row w.user_achievements;
  }

  -- the bonus, and then the level of the new XP
  abbrev pub pay_bonus : ℕ → ℕ → Action (World db) (Unit {0})
  pay_bonus user_id bonus = do
    user ← update_user db user_id (λ u. record u { xp = u.xp + bonus })
    update_user db user_id (λ u. record u { level = level_from_xp user.xp })
    pure tt

  unfoldable pub unlock_tx : ℕ → Achievement → ℕ → Action (World db) (Unit {0})
  unlock_tx user_id a now = do
    modify (save_user_achievement user_id a.id (unlocked_row a now))
    when (ltb 0 a.xp_bonus) (pay_bonus user_id a.xp_bonus)

  abbrev pub level_or : ℕ → Option User → ℕ
  level_or level none = level
  level_or level (some u) = u.level

  unfoldable pub announce_unlock : ℕ → Achievement → ℕ → Action (World db) (Unit {0})
  announce_unlock user_id a previous_level = do
    emit db (achievement_unlocked user_id a.id a.slug)
    when (ltb 0 a.xp_bonus) (do
      after ← find_user db user_id
      when (ltb previous_level (level_or previous_level after))
          (emit db (level_up user_id previous_level (level_or previous_level after))))

  module _ (tx : Transactions (World db)) where
    unfoldable pub unlock : ℕ → Achievement → ℕ → Action (World db) (Unit {0})
    unlock user_id a now = do
      before ← find_user db user_id
      tx.transaction (Unit {0}) (unlock_tx user_id a now)
      announce_unlock user_id a (level_or 1 before)

    -- the body of the loop, for a row that is not unlocked
    unfoldable pub evaluate_open :
        Achievement → ℕ → Option UserAchievement → Evaluation → ℕ → Action (World db) (Unit {0})
    evaluate_open a user_id none result now =
        if result.earned
        then unlock user_id a now
        else when (ltb 0 result.progress) (
            modify (
              save_user_achievement user_id a.id
                (record { unlocked_at = none; progress = result.progress })))
    evaluate_open a user_id (some row) result now =
        if result.earned
        then unlock user_id a now
        else when (not (result.progress == row.progress)) (
            modify (save_user_achievement user_id a.id (record row { progress = result.progress })))

    unfoldable pub evaluate_one : Achievement → ℕ → ℕ → Action (World db) (Unit {0})
    evaluate_one a user_id now = do
      existing ← gets (λ w. db.user_achievement.find (user_id, a.id) w.user_achievements)
      if is_unlocked existing then pure tt else (do
        result ← gets (evaluate_with_progress a user_id)
        evaluate_open a user_id existing result now)

    unfoldable pub evaluate_for_user : List Achievement → ℕ → ℕ → Action (World db) (Unit {0})
    evaluate_for_user [] user_id now = pure tt
    evaluate_for_user (a ∷ rest) user_id now = do
      evaluate_one a user_id now
      evaluate_for_user rest user_id now

    -- the listeners of `onModuleInit`
    unfoldable pub on_event : List Achievement → AppEvent → ℕ → Action (World db) (Unit {0})
    on_event definitions (quest_completed user_id quest_id xp at) now =
        evaluate_for_user definitions user_id now
    on_event definitions (quest_location_checked_in user_id quest_id location_id) now =
        evaluate_for_user definitions user_id now
    on_event definitions (friend_request_accepted requester_id addressee_id id) now = do
      evaluate_for_user definitions requester_id now
      evaluate_for_user definitions addressee_id now
    on_event definitions _ now = pure tt

  abbrev pub user_achievement_dto : ℕ → World db → Achievement → UserAchievementDto
  user_achievement_dto user_id w a =
      let row = db.user_achievement.find (user_id, a.id) w.user_achievements in
      record {
        id = a.id;
        slug = a.slug;
        type = a.type;
        xp_bonus = a.xp_bonus;
        unlocked_at = unlocked_at_of row;
        progress = shown_progress a row;
      }

  unfoldable pub list_for_user : List Achievement → ℕ → World db → List UserAchievementDto
  list_for_user [] user_id w = []
  list_for_user (a ∷ rest) user_id w =
      user_achievement_dto user_id w a ∷ list_for_user rest user_id w
