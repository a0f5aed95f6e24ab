-- ===== src/Friendships/Feed/Reads.antt =====
-- What the activity feed reads: the five queries of `activityFeed` of
-- src/modules/friendships/friendships.service.ts. A row whose user or quest is missing, which the
-- foreign keys exclude, is left out.
use text.Mathlib.Text.{◌==◌ as str_eq}
use sidequest_demo_be.Common.{
  ℕ, Bool, true, false, ◌&&◌, Option, none, some, List, [], ◌∷◌, any, take, ltb, ◌==◌,
  if◌then◌else◌,
}
use sidequest_demo_be.Common.Sorting.{ascending, by, reversed, nulls_last}
use sidequest_demo_be.Common.Text.{Text}
use sidequest_demo_be.Effects.{Action, bad_request, pure, gets, or_throw, ◌>>=◌}
use sidequest_demo_be.Model.{
  Quest, QuestCompletion, QuestLocationCheckIn, UserAchievement, Notification, ParticipantSummary,
  is_completed, is_started,
}
use sidequest_demo_be.World.{Database, World}
use sidequest_demo_be.Achievements.{Achievement}
use sidequest_demo_be.Quests.Dto.{summary_of}
use sidequest_demo_be.Quests.CheckIn.{find_location}
use sidequest_demo_be.Friendships.Lists.{accepted_friend_ids}
use sidequest_demo_be.Friendships.Feed.{
  CompletedRow, StartedRow, AchievementRow, LevelUpRow, VisitRow, Streams, Feed, page, page_limit,
  per_stream, cursor_given,
}

-- the column `id` of the rows that the model has under a pair of identifiers
pub record RowIds : Type 0 where
  pub completion_id : ℕ × ℕ → ℕ
  pub achievement_id : ℕ × ℕ → ℕ
  pub check_in_id : ℕ × ℕ → ℕ

-- `{ in: friendIds }`
abbrev pub among : List ℕ → ℕ → Bool
among ids id = any (λ x. x == id) ids

-- `olderThan`, where it is given
abbrev pub is_older : Option ℕ → ℕ → Bool
is_older none at = true
is_older (some before) at = ltb at before

-- `{ not: null, ...olderThan }`
abbrev pub is_set_and_older : Option ℕ → Option ℕ → Bool
is_set_and_older before none = false
is_set_and_older before (some at) = is_older before at

module _ (ids : List ℕ) (before : Option ℕ) where
  abbrev pub was_finished : ℕ × ℕ → QuestCompletion → Bool
  was_finished k c =
      among ids k.0 && is_completed c.status && is_set_and_older before c.completed_at

  abbrev pub was_begun : ℕ × ℕ → QuestCompletion → Bool
  was_begun k c = among ids k.0 && is_started c.status && is_older before c.started_at

  abbrev pub was_earned : ℕ × ℕ → UserAchievement → Bool
  was_earned k a = among ids k.0 && is_set_and_older before a.unlocked_at

  abbrev pub was_level_up : ℕ → Notification → Bool
  was_level_up id n =
      among ids n.user_id && str_eq n.type "LEVEL_UP" && is_older before n.created_at

  abbrev pub was_visited : {F : Type 0} → ℕ × ℕ → QuestLocationCheckIn F → Bool
  was_visited k r = among ids k.0 && is_older before r.created_at

-- The rows whose relations are there, with them.
unfoldable pub included : {A B C : Type 0} → (A → Option B) → (A → B → C) → List A → List C
included relation row [] = []
included relation row (e ∷ rest) =
    let more = included relation row rest in
    elim (relation e) [ none ↦ more | some b ↦ row e b ∷ more ]

-- an achievement by its identifier
abbrev pub achievement_of : List Achievement → ℕ → Option Achievement
achievement_of [] id = none
achievement_of (a ∷ rest) id = if a.id == id then some a else achievement_of rest id

module _ {F : Type 0} (db : Database F) (row_ids : RowIds) (definitions : List Achievement)
    (w : World db) where
  abbrev pub user_of : ℕ → Option ParticipantSummary
  user_of id = elim (db.user.find id w.users) [ none ↦ none | some u ↦ some (summary_of id u) ]

  abbrev pub user_and_quest : ℕ → ℕ → Option (ParticipantSummary × Quest F)
  user_and_quest user_id quest_id = elim (user_of user_id) [
    | none ↦ none
    | some u ↦ elim (db.quest.find quest_id w.quests) [ none ↦ none | some q ↦ some (u, q) ]
  ]

  abbrev pub user_and_achievement : ℕ → ℕ → Option (ParticipantSummary × Achievement)
  user_and_achievement user_id id = elim (user_of user_id) [
    | none ↦ none
    | some u ↦ elim (achievement_of definitions id) [ none ↦ none | some a ↦ some (u, a) ]
  ]

  abbrev pub completed_quest_row :
      (ℕ × ℕ) × QuestCompletion → ParticipantSummary × Quest F → CompletedRow
  completed_quest_row (k, c) (u, q) = record {
    id = row_ids.completion_id k;
    user = u;
    quest_id = k.1;
    quest_title = q.title;
    xp_awarded = c.xp_awarded;
    completed_at = c.completed_at;
  }

  abbrev pub started_quest_row :
      (ℕ × ℕ) × QuestCompletion → ParticipantSummary × Quest F → StartedRow
  started_quest_row (k, c) (u, q) = record {
    id = row_ids.completion_id k;
    user = u;
    quest_id = k.1;
    quest_title = q.title;
    started_at = c.started_at;
  }

  abbrev pub achievement_row :
      (ℕ × ℕ) × UserAchievement → ParticipantSummary × Achievement → AchievementRow
  achievement_row (k, e) (u, a) = record {
    id = row_ids.achievement_id k;
    user = u;
    achievement_id = a.id;
    achievement_name = a.name;
    xp_bonus = a.xp_bonus;
    unlocked_at = e.unlocked_at;
  }

  abbrev pub level_up_row : ℕ × Notification → ParticipantSummary → LevelUpRow
  level_up_row (id, n) u = record { id = id; user = u; created_at = n.created_at }

  -- the location's name and address, where the quest has the location
  abbrev pub visit_row : (ℕ × ℕ) × QuestLocationCheckIn F → ParticipantSummary × Quest F → VisitRow
  visit_row (k, r) (u, q) =
      let location = find_location k.1 q.locations in
      record {
        id = row_ids.check_in_id k;
        user = u;
        quest_id = r.quest_id;
        quest_title = q.title;
        name = elim location [ none ↦ none | some l ↦ l.name ];
        address = elim location [ none ↦ none | some l ↦ l.address ];
        created_at = r.created_at;
      }

  unfoldable pub streams : List ℕ → Option ℕ → ℕ → Streams
  streams ids before cap = record {
    completed_quests =
        included (λ e. user_and_quest e.0.0 e.0.1) completed_quest_row
          (take cap (
            db.quest_completion.find_many (was_finished ids before)
              (reversed (by (λ e. e.1.completed_at) (nulls_last ascending))) w.completions));
    started_quests =
        included (λ e. user_and_quest e.0.0 e.0.1) started_quest_row
          (take cap (
            db.quest_completion.find_many (was_begun ids before)
              (reversed (by (λ e. e.1.started_at) ascending)) w.completions));
    achievements =
        included (λ e. user_and_achievement e.0.0 e.0.1) achievement_row
          (take cap (
            db.user_achievement.find_many (was_earned ids before)
              (reversed (by (λ e. e.1.unlocked_at) (nulls_last ascending))) w.user_achievements));
    level_ups =
        included (λ e. user_of e.1.user_id) level_up_row
          (take cap (
            db.notification.find_many (was_level_up ids before)
              (reversed (by (λ e. e.1.created_at) ascending)) w.notifications));
    place_visits =
        included (λ e. user_and_quest e.0.0 e.1.quest_id) visit_row
          (take cap (
            db.quest_location_check_in.find_many (was_visited ids before)
              (reversed (by (λ e. e.1.created_at) ascending)) w.check_ins));
  }

-- the cursor as a time; `parse_date` is `new Date(text)`, where it is a date
abbrev pub parsed_cursor : (Text → Option ℕ) → Option Text → Option (Option ℕ)
parsed_cursor parse_date cursor = elim (cursor_given cursor) [
  | none ↦ some none
  | some text ↦ elim (parse_date text) [ none ↦ none | some at ↦ some (some at) ]
]

module _ {F : Type 0} (db : Database F) (row_ids : RowIds) (definitions : List Achievement)
    (parse_date : Text → Option ℕ) where
  -- the feed of the friends, where there are some
  abbrev pub feed_of : List ℕ → ℕ → Option Text → Action (World db) Feed
  feed_of [] limit cursor = pure (record { items = []; next_cursor = none })
  feed_of (friend ∷ friends) limit cursor = do
    before ←
        or_throw (parsed_cursor parse_date cursor)
          (bad_request "cursor must be a valid ISO 8601 timestamp")
    gets (λ w. page (page_limit limit) (
        streams db row_ids definitions w (friend ∷ friends) before (per_stream (page_limit limit))))

  unfoldable pub activity_feed : ℕ → ℕ → Option Text → Action (World db) Feed
  activity_feed user_id limit cursor = do
    friend_ids ← gets (accepted_friend_ids db user_id)
    feed_of friend_ids limit cursor
