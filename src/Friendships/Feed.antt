-- ===== src/Friendships/Feed.antt =====
-- The activity feed: `activityFeed` of src/modules/friendships/friendships.service.ts. Here is
-- what becomes of the rows that were read, each with the columns that are used; Feed/Reads has the
-- five queries and the method. Identifiers are ordered as their texts are.
pub mod Pages
pub mod Reads
pub mod Cursors
use Prim.Native.String.{String}
use text.Mathlib.Text.{◌==◌ as str_eq}
use sidequest_demo_be.Common.{
  ℕ, ◌+◌, ◌*◌, min, max, Bool, true, false, ◌&&◌, ◌||◌, Option, none, some, List, [], ◌∷◌, ◌++◌,
  map, leb, ltb, ◌==◌, length, take, if◌then◌else◌,
}
use sidequest_demo_be.Common.Text.{Text, text_eq}
use sidequest_demo_be.Effects.{Result, ok, err, bad_request}
use sidequest_demo_be.Model.{ParticipantSummary}

pub data FriendActivityKind : Type 0 where
  quest_completed quest_started achievement_unlocked level_up place_visited : FriendActivityKind

pub record FriendActivityDto : Type 0 where
  pub id : ℕ
  pub kind : FriendActivityKind
  pub user : ParticipantSummary
  pub quest_id : Option ℕ
  pub quest_title : Option String
  pub achievement_id : Option ℕ
  pub achievement_title : Option String
  pub place_name : Option String
  pub xp_earned : Option ℕ
  pub created_at : ℕ

pub record CompletedRow : Type 0 where
  pub id : ℕ
  pub user : ParticipantSummary
  pub quest_id : ℕ
  pub quest_title : String
  pub xp_awarded : ℕ
  pub completed_at : Option ℕ

pub record StartedRow : Type 0 where
  pub id : ℕ
  pub user : ParticipantSummary
  pub quest_id : ℕ
  pub quest_title : String
  pub started_at : ℕ

pub record AchievementRow : Type 0 where
  pub id : ℕ
  pub user : ParticipantSummary
  pub achievement_id : ℕ
  pub achievement_name : String
  pub xp_bonus : ℕ
  pub unlocked_at : Option ℕ

pub record LevelUpRow : Type 0 where
  pub id : ℕ
  pub user : ParticipantSummary
  pub created_at : ℕ

pub record VisitRow : Type 0 where
  pub id : ℕ
  pub user : ParticipantSummary
  pub quest_id : ℕ
  pub quest_title : String
  pub name : Option String
  pub address : Option String
  pub created_at : ℕ

pub record Streams : Type 0 where
  pub completed_quests : List CompletedRow
  pub started_quests : List StartedRow
  pub achievements : List AchievementRow
  pub level_ups : List LevelUpRow
  pub place_visits : List VisitRow

abbrev pub activity : FriendActivityKind → ℕ → ParticipantSummary → ℕ → FriendActivityDto
activity kind id user at = record {
  id = id;
  kind = kind;
  user = user;
  quest_id = none;
  quest_title = none;
  achievement_id = none;
  achievement_title = none;
  place_name = none;
  xp_earned = none;
  created_at = at;
}

-- `if (!c.completedAt) continue`
unfoldable pub completed_items : List CompletedRow → List FriendActivityDto
completed_items [] = []
completed_items (c ∷ rest) =
    let more = completed_items rest in
    elim c.completed_at [
      | none ↦ more
      | some at ↦
          record (activity FriendActivityKind.quest_completed c.id c.user at) {
            quest_id = some c.quest_id;
            quest_title = some c.quest_title;
            xp_earned = some c.xp_awarded;
          }
          ∷ more
    ]

abbrev pub started_item : StartedRow → FriendActivityDto
started_item c = record (activity FriendActivityKind.quest_started c.id c.user c.started_at) {
  quest_id = some c.quest_id;
  quest_title = some c.quest_title;
}

-- `if (!a.unlockedAt) continue`
unfoldable pub achievement_items : List AchievementRow → List FriendActivityDto
achievement_items [] = []
achievement_items (a ∷ rest) =
    let more = achievement_items rest in
    elim a.unlocked_at [
      | none ↦ more
      | some at ↦
          record (activity FriendActivityKind.achievement_unlocked a.id a.user at) {
            achievement_id = some a.achievement_id;
            achievement_title = some a.achievement_name;
            xp_earned = some a.xp_bonus;
          }
          ∷ more
    ]

abbrev pub level_up_item : LevelUpRow → FriendActivityDto
level_up_item n = activity FriendActivityKind.level_up n.id n.user n.created_at

-- a text that is neither null nor empty
abbrev pub filled : Option String → Option String
filled none = none
filled (some s) = if str_eq s "" then none else some s

abbrev pub place_label : Option String → Option String → Option String
place_label name address = elim (filled name) [ none ↦ filled address | some s ↦ some s ]

abbrev pub visit_item : VisitRow → FriendActivityDto
visit_item v = record (activity FriendActivityKind.place_visited v.id v.user v.created_at) {
  quest_id = some v.quest_id;
  quest_title = some v.quest_title;
  place_name = place_label v.name v.address;
}

unfoldable pub merged : Streams → List FriendActivityDto
merged s =
    completed_items s.completed_quests
    ++ map started_item s.started_quests
    ++ achievement_items s.achievements
    ++ map level_up_item s.level_ups
    ++ map visit_item s.place_visits

-- the comparison of `merged.sort`: the newer first, and of the same time the greater identifier
abbrev pub goes_before : FriendActivityDto → FriendActivityDto → Bool
goes_before a b = ltb b.created_at a.created_at || a.created_at == b.created_at && leb b.id a.id

unfoldable pub insert : FriendActivityDto → List FriendActivityDto → List FriendActivityDto
insert x [] = x ∷ []
insert x (y ∷ ys) = let rest = insert x ys in if goes_before x y then x ∷ y ∷ ys else y ∷ rest

unfoldable pub sort : List FriendActivityDto → List FriendActivityDto
unfolding insert
sort [] = []
sort (x ∷ xs) = insert x (sort xs)

-- `Math.max(1, Math.min(100, options.limit))`
abbrev pub page_limit : ℕ → ℕ
page_limit limit = max 1 (min 100 limit)

-- `Math.min(500, Math.max(limit + 60, limit * 12))`
abbrev pub per_stream : ℕ → ℕ
per_stream limit = min 500 (max (limit + 60) (limit * 12))

abbrev pub hit_cap : ℕ → Streams → Bool
hit_cap cap s =
    leb cap (length s.completed_quests)
    || leb cap (length s.started_quests)
    || leb cap (length s.achievements)
    || leb cap (length s.level_ups)
    || leb cap (length s.place_visits)

pub record Feed : Type 0 where
  pub items : List FriendActivityDto
  pub next_cursor : Option ℕ

abbrev pub last_time : List FriendActivityDto → Option ℕ
last_time [] = none
last_time (x ∷ []) = some x.created_at
last_time (x ∷ y ∷ rest) = last_time (y ∷ rest)

unfoldable pub page : ℕ → Streams → Feed
page limit s =
    let items = take limit (sort (merged s)) in
    let has_more =
      ltb limit (length (merged s)) || length items == limit && hit_cap (per_stream limit) s in
    record { items = items; next_cursor = if has_more then last_time items else none }

-- `options.cursor !== undefined && options.cursor !== ''`
abbrev pub cursor_given : Option Text → Option Text
cursor_given none = none
cursor_given (some text) = if text_eq text [] then none else some text
