-- ===== src/Leaderboard.antt =====
-- The leaderboard: src/modules/leaderboard/leaderboard.service.ts, and the queries of
-- src/modules/leaderboard/leaderboard.repository.ts. Rows that tie in all columns of the order stay
-- in the order of the table, which PostgreSQL leaves open.
pub mod Ranks
pub mod Periods
use sidequest_demo_be.Common.{
  ℕ, ◌+◌, ◌-◌, ◌*◌, Bool, true, false, not, ◌&&◌, Option, none, some, List, [], ◌∷◌, map, ◌==◌, leb,
  if◌then◌else◌, or_else,
}
use sidequest_demo_be.Common.Sorting.{Order, any_order, ascending, by, reversed, then_by, sort}
use sidequest_demo_be.Common.Text.{Text, trim, text_eq}
use sidequest_demo_be.Dates.{ms_day, utc_day, utc_week_day, start_of_utc_month}
use sidequest_demo_be.Links.{TextMethods, SqlText}
use sidequest_demo_be.Effects.{Result, ok, err, bad_request}
use sidequest_demo_be.Store.{picked, counted}
use sidequest_demo_be.Model.{User, QuestCompletion, ParticipantSummary, is_completed}
use sidequest_demo_be.World.{Database, World}
use sidequest_demo_be.Invites.{is_active}

pub data LeaderboardScope : Type 0 where
  global city : LeaderboardScope

pub data LeaderboardPeriod : Type 0 where
  all_time month week : LeaderboardPeriod

pub record LeaderboardQueryDto : Type 0 where
  pub scope : Option LeaderboardScope
  pub city : Option Text
  pub period : Option LeaderboardPeriod
  pub limit : ℕ

-- `LeaderboardSqlRow`, without its rank
pub record Standing : Type 0 where
  pub id : ℕ
  pub username : Text
  pub display_name : Option Text
  pub avatar_url : Option Text
  pub level : ℕ
  pub xp : ℕ
  pub quests_done : ℕ
  pub created_at : ℕ

pub record RankedRow : Type 0 where
  pub standing : Standing
  pub rank : ℕ

pub record LeaderboardEntryDto : Type 0 where
  pub rank : ℕ
  pub user : ParticipantSummary
  pub xp : ℕ
  pub quests_done : ℕ
  pub is_me : Bool

pub record LeaderboardResponseDto : Type 0 where
  pub entries : List LeaderboardEntryDto
  pub my_entry : Option LeaderboardEntryDto

-- `mondayOffset` is -6 on a Sunday, and 1 less the day of the week else
abbrev pub week_start_day : ℕ → ℕ
week_start_day day = if utc_week_day day == 0 then day - 6 else day + 1 - utc_week_day day

-- `null` is `none`
unfoldable pub leaderboard_period_start_utc : LeaderboardPeriod → ℕ → Option ℕ
leaderboard_period_start_utc all_time now = none
leaderboard_period_start_utc month now = some (start_of_utc_month now)
leaderboard_period_start_utc week now = some (week_start_day (utc_day now) * ms_day)

-- `cityFilter`
abbrev pub city_filter : SqlText → Option Text → User → Bool
city_filter sql none u = true
city_filter sql (some city_lower) u = text_eq (sql.lower (sql.btrim u.primary_city)) city_lower

-- `status = 'ACTIVE'` and the city
abbrev pub is_listed : SqlText → Option Text → ℕ → User → Bool
is_listed sql city_lower id u = is_active u.status && city_filter sql city_lower u

abbrev pub standing : ℕ → User → ℕ → ℕ → Standing
standing id u xp quests_done = record {
  id = id;
  username = u.username;
  display_name = u.display_name;
  avatar_url = u.avatar_url;
  level = u.level;
  xp = xp;
  quests_done = quests_done;
  created_at = u.created_at;
}

-- the join of the period: completed, with a date, not before the start
abbrev pub at_or_after : ℕ → Option ℕ → Bool
at_or_after start none = false
at_or_after start (some at) = leb start at

abbrev pub is_in_period : ℕ → ℕ → ℕ × ℕ → QuestCompletion → Bool
is_in_period start user_id k c =
    k.0 == user_id && (is_completed c.status && at_or_after start c.completed_at)

-- `ORDER BY xp DESC, level DESC, createdAt ASC`
abbrev pub best_first : Order Standing
best_first =
    then_by (reversed (by (λ s. s.xp) ascending))
      (then_by (reversed (by (λ s. s.level) ascending)) (by (λ s. s.created_at) ascending))

-- `ROW_NUMBER()`, from a number on
unfoldable pub row_number : ℕ → List Standing → List RankedRow
row_number n [] = []
row_number n (s ∷ rest) = record { standing = s; rank = n } ∷ row_number (n + 1) rest

-- `WHERE rank <= limit`
unfoldable pub rank_up_to : ℕ → List RankedRow → List RankedRow
rank_up_to limit [] = []
rank_up_to limit (r ∷ rest) =
    let more = rank_up_to limit rest in if leb r.rank limit then r ∷ more else more

-- `WHERE id = userId LIMIT 1`
unfoldable pub row_of : ℕ → List RankedRow → Option RankedRow
row_of user_id [] = none
row_of user_id (r ∷ rest) =
    let later = row_of user_id rest in if r.standing.id == user_id then some r else later

abbrev pub is_viewer : Option ℕ → ℕ → Bool
is_viewer none id = false
is_viewer (some viewer) id = id == viewer

unfoldable pub to_entry : Option ℕ → RankedRow → LeaderboardEntryDto
to_entry viewer row = record {
  rank = row.rank;
  user = record {
    id = row.standing.id;
    username = row.standing.username;
    display_name = row.standing.display_name;
    avatar_url = row.standing.avatar_url;
    level = row.standing.level;
  };
  xp = row.standing.xp;
  quests_done = row.standing.quests_done;
  is_me = is_viewer viewer row.standing.id;
}

-- `entries.find((e) => e.user.id === viewerId)`
unfoldable pub find_entry : ℕ → List LeaderboardEntryDto → Option LeaderboardEntryDto
find_entry viewer [] = none
find_entry viewer (e ∷ rest) =
    let later = find_entry viewer rest in if e.user.id == viewer then some e else later

abbrev pub entry_of : Option ℕ → Option RankedRow → Option LeaderboardEntryDto
entry_of viewer none = none
entry_of viewer (some row) = some (to_entry viewer row)

abbrev pub or_entry :
    Option LeaderboardEntryDto → Option LeaderboardEntryDto → Option LeaderboardEntryDto
or_entry none mine = mine
or_entry (some in_top) mine = some in_top

module _ {F : Type 0} (db : Database F) (methods : TextMethods) (sql : SqlText) where
  -- a row of `base`, or of `agg` where there is a start
  abbrev pub standing_of : Option ℕ → World db → ℕ × User → Standing
  standing_of none w (id, u) = standing id u u.xp u.quests_done
  standing_of (some start) w (id, u) =
      standing id u
        (db.quest_completion.total (picked (is_in_period start id) (λ e. e.1.xp_awarded))
          w.completions)
        (db.quest_completion.total (counted (is_in_period start id)) w.completions)

  abbrev pub standings : Option ℕ → Option Text → World db → List Standing
  standings start city_lower w =
      map (standing_of start w) (db.user.find_many (is_listed sql city_lower) any_order w.users)

  -- `ranked`
  unfoldable pub ranked : Option ℕ → Option Text → World db → List RankedRow
  ranked start city_lower w = row_number 1 (sort best_first (standings start city_lower w))

  -- `listTopAllTime` and `listTopPeriod`
  unfoldable pub list_top : Option ℕ → Option Text → ℕ → World db → List RankedRow
  list_top start city_lower limit w = rank_up_to limit (ranked start city_lower w)

  -- `findMyRankAllTime` and `findMyRankPeriod`
  unfoldable pub find_my_rank : Option ℕ → Option Text → ℕ → World db → Option RankedRow
  find_my_rank start city_lower user_id w = row_of user_id (ranked start city_lower w)

  abbrev pub my_entry_of :
      Option ℕ
      → Option ℕ
      → Option Text
      → List LeaderboardEntryDto
      → World db
      → Option LeaderboardEntryDto
  my_entry_of none start city_lower entries w = none
  my_entry_of (some viewer) start city_lower entries w =
      or_entry (find_entry viewer entries)
        (entry_of (some viewer) (find_my_rank start city_lower viewer w))

  abbrev pub respond : Option ℕ → Option Text → ℕ → Option ℕ → World db → LeaderboardResponseDto
  respond start city_lower limit viewer w =
      let entries = map (to_entry viewer) (list_top start city_lower limit w) in
      record { entries = entries; my_entry = my_entry_of viewer start city_lower entries w }

  -- `query.city?.trim()`, where an empty text is none
  abbrev pub trimmed_city : Option Text → Option Text
  trimmed_city none = none
  trimmed_city (some raw) = if text_eq (trim raw) [] then none else some (trim raw)

  unfoldable pub get : LeaderboardQueryDto → Option ℕ → ℕ → World db → Result LeaderboardResponseDto
  get query viewer now w =
      let start = leaderboard_period_start_utc (or_else query.period all_time) now in
      elim (or_else query.scope global) [
        | global ↦ ok (respond start none query.limit viewer w)
        | city ↦ elim (trimmed_city query.city) [
          | none ↦ err (bad_request "city is required when scope=CITY")
          | some name ↦ ok (respond start (some (methods.to_lower_case name)) query.limit viewer w)
        ]
      ]
