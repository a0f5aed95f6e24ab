-- ===== src/Businesses/Portal.antt =====
-- The figures of the partner portal: `getMetrics` and `getTopQuests` of
-- src/modules/businesses/businesses.service.ts, over the queries of
-- src/modules/businesses/business-portal.repository.ts.
use Prim.Native.String.{String}
use sidequest_demo_be.Common.{
  ℕ, ◌+◌, Bool, true, false, ◌&&◌, Option, none, some, List, [], ◌∷◌, map, take, length, ◌==◌, ltb,
  if◌then◌else◌, or_else,
}
use sidequest_demo_be.Common.Sorting.{Order, any_order, ascending, by, reversed, then_by, sort}
use sidequest_demo_be.Common.Text.{Text, codes}
use sidequest_demo_be.Geo.{Float}
use sidequest_demo_be.Gamification.{Ratio}
use sidequest_demo_be.Effects.{Action, gets, ◌>>=◌}
use sidequest_demo_be.Store.{counted, picked}
use sidequest_demo_be.Model.{
  Quest, BusinessVisit, QuestCompletion, QuestRating, is_completed, refers_to,
}
use sidequest_demo_be.World.{Database, World}
use sidequest_demo_be.Businesses.{require_owned_business}
use sidequest_demo_be.Businesses.Windows.{
  BusinessMetricsPeriod, thirty_d, DateRange, Windows, is_within, current_and_previous_window,
}

pub record MetricDto (F : Type 0) : Type 0 where
  pub value : F
  pub delta : F

pub record BusinessMetricsDto (F : Type 0) : Type 0 where
  pub period : BusinessMetricsPeriod
  pub monthly_visits : MetricDto F
  pub quest_completions : MetricDto F
  pub avg_rating : MetricDto F
  pub repeat_visitors : MetricDto F

-- `TopQuestSqlRow`
pub record TopQuestRow : Type 0 where
  pub id : ℕ
  pub title : String
  pub visits : ℕ
  pub completions : ℕ
  pub rating : Option Ratio
  pub rating_count : ℕ

pub record BusinessTopQuestDto (F : Type 0) : Type 0 where
  pub id : ℕ
  pub title : String
  pub visits : ℕ
  pub completions : ℕ
  pub conversion : F
  pub rating : Option F
  pub rating_count : ℕ

-- The `numeric` of PostgreSQL as the double that `toFiniteNumber` makes of it: a sum over a count,
-- and a part of a whole in percent.
pub record Numeric (F : Type 0) : Type 0 where
  pub avg : ℕ → ℕ → F
  pub percent : ℕ → ℕ → F

abbrev pub at_within : DateRange → Option ℕ → Bool
at_within r none = false
at_within r (some at) = is_within r at

abbrev pub visited : ℕ → DateRange → ℕ → BusinessVisit → Bool
visited business_id r id v = v.business_id == business_id && is_within r v.created_at

-- `userId IS NOT NULL`
abbrev pub visited_by_user : ℕ → DateRange → ℕ → BusinessVisit → Bool
visited_by_user business_id r id v = visited business_id r id v && is_some v.user_id
  where
    is_some : Option ℕ → Bool
    is_some none = false
    is_some (some user_id) = true

-- one turn of `GROUP BY "userId"` with `COUNT(*)`
abbrev pub count_user : ℕ → List (ℕ × ℕ) → List (ℕ × ℕ)
count_user user_id [] = (user_id, 1) ∷ []
count_user user_id ((u, n) ∷ rest) =
    let later = count_user user_id rest in
    if u == user_id then (u, n + 1) ∷ rest else (u, n) ∷ later

abbrev pub count_visit : Option ℕ → List (ℕ × ℕ) → List (ℕ × ℕ)
count_visit none counts = counts
count_visit (some user_id) counts = count_user user_id counts

unfoldable pub visits_by_user : List (ℕ × BusinessVisit) → List (ℕ × ℕ)
visits_by_user [] = []
visits_by_user ((id, v) ∷ rest) = count_visit v.user_id (visits_by_user rest)

-- `COUNT(*) FILTER (WHERE cnt > 1)`
unfoldable pub repeat_users : List (ℕ × ℕ) → ℕ
repeat_users [] = 0
repeat_users ((u, n) ∷ rest) = let more = repeat_users rest in if ltb 1 n then more + 1 else more

-- `ORDER BY visits DESC, completions DESC, q.title ASC`
abbrev pub top_first : Order Text → Order TopQuestRow
top_first collation =
    then_by (reversed (by (λ r. r.visits) ascending))
      (then_by (reversed (by (λ r. r.completions) ascending)) (by (λ r. codes r.title) collation))

module _ (fl : Float) (numeric : Numeric fl.F) where
  open fl use {F, of_ℕ, sub, mul, div, math_round}

  -- `Math.round(x * scale) / scale`
  abbrev pub rounded : ℕ → F → F
  rounded scale x = div (math_round (mul x (of_ℕ scale))) (of_ℕ scale)

  abbrev pub is_zero : F → Bool
  is_zero x = fl.le x (of_ℕ 0) && fl.le (of_ℕ 0) x

  -- `Math.round(((cur - prev) / prev) * 10000) / 100`, and 0 or 100 where there was nothing before
  unfoldable pub delta_pct : F → F → F
  delta_pct cur prev =
      if is_zero prev
      then if is_zero cur then of_ℕ 0 else of_ℕ 100
      else div (math_round (mul (div (sub cur prev) prev) (of_ℕ 10000))) (of_ℕ 100)

  unfoldable pub delta_abs : F → F → F
  delta_abs cur prev = rounded 100 (sub cur prev)

  abbrev pub wrap_pct : F → F → MetricDto F
  wrap_pct value prev = record { value = value; delta = delta_pct value prev }

  abbrev pub wrap_abs : F → F → MetricDto F
  wrap_abs value prev = record { value = value; delta = delta_abs value prev }

  -- `completions / visits`, to four places
  abbrev pub conversion_of : ℕ → ℕ → F
  conversion_of completions visits =
      if ltb 0 visits then rounded 10000 (div (of_ℕ completions) (of_ℕ visits)) else of_ℕ 0

  abbrev pub rating_of : Option Ratio → Option F
  rating_of none = none
  rating_of (some r) = some (rounded 100 (div (of_ℕ r.num) (of_ℕ r.den)))

  unfoldable pub top_quest_dto : TopQuestRow → BusinessTopQuestDto F
  top_quest_dto r = record {
    id = r.id;
    title = r.title;
    visits = r.visits;
    completions = r.completions;
    conversion = conversion_of r.completions r.visits;
    rating = rating_of r.rating;
    rating_count = r.rating_count;
  }

  module _ (db : Database F) where
    abbrev pub count_visits : ℕ → DateRange → World db → ℕ
    count_visits business_id r w =
        db.business_visit.total (counted (visited business_id r)) w.business_visits

    -- the join with the quests of the business
    abbrev pub belongs : ℕ → World db → ℕ → Bool
    belongs business_id w quest_id = elim (db.quest.find quest_id w.quests) [
      | none ↦ false
      | some q ↦ refers_to q.business_id business_id
    ]

    abbrev pub completed_within : ℕ → DateRange → World db → ℕ × ℕ → QuestCompletion → Bool
    completed_within business_id r w k c =
        belongs business_id w k.1 && (is_completed c.status && at_within r c.completed_at)

    abbrev pub count_quest_completions : ℕ → DateRange → World db → ℕ
    count_quest_completions business_id r w =
        db.quest_completion.total (counted (completed_within business_id r w)) w.completions

    abbrev pub rated_within : ℕ → DateRange → World db → ℕ × ℕ → QuestRating → Bool
    rated_within business_id r w k rating =
        belongs business_id w k.1 && is_within r rating.created_at

    -- `AVG(score)`, which is null over no rows, and then 0
    unfoldable pub average_rating_in_period : ℕ → DateRange → World db → F
    average_rating_in_period business_id r w =
        let n = db.quest_rating.total (counted (rated_within business_id r w)) w.ratings in
        let sum =
          db.quest_rating.total (picked (rated_within business_id r w) (λ e. e.1.score))
            w.ratings in
        if n == 0 then rounded 100 (of_ℕ 0) else rounded 100 (numeric.avg sum n)

    unfoldable pub repeat_visitor_percent : ℕ → DateRange → World db → F
    repeat_visitor_percent business_id r w =
        let users = visits_by_user (
          db.business_visit.find_many (visited_by_user business_id r) any_order
            w.business_visits) in
        if length users == 0
        then rounded 100 (of_ℕ 0)
        else rounded 100 (numeric.percent (repeat_users users) (length users))

    -- a row of `listTopQuests`
    abbrev pub visited_for : ℕ → ℕ → DateRange → ℕ → BusinessVisit → Bool
    visited_for quest_id business_id r id v =
        refers_to v.quest_id quest_id && visited business_id r id v

    abbrev pub completed_for : ℕ → DateRange → ℕ × ℕ → QuestCompletion → Bool
    completed_for quest_id r k c =
        k.1 == quest_id && (is_completed c.status && at_within r c.completed_at)

    abbrev pub top_row : ℕ → DateRange → World db → ℕ × Quest F → TopQuestRow
    top_row business_id r w (id, q) = record {
      id = id;
      title = q.title;
      visits = db.business_visit.total (counted (visited_for id business_id r)) w.business_visits;
      completions = db.quest_completion.total (counted (completed_for id r)) w.completions;
      rating = q.rating_avg;
      rating_count = q.rating_count;
    }

    unfoldable pub list_top_quests : Order Text → ℕ → DateRange → ℕ → World db → List TopQuestRow
    list_top_quests collation business_id r limit w = take limit (
        sort (top_first collation) (
          map (top_row business_id r w)
            (db.quest.find_many (λ id q. refers_to q.business_id business_id) any_order w.quests)))

    abbrev pub metrics_of : BusinessMetricsPeriod → ℕ → Windows → World db → BusinessMetricsDto F
    metrics_of period id windows w =
        let cur = windows.current in
        let prev = windows.previous in
        record {
          period = period;
          monthly_visits = wrap_pct (of_ℕ (count_visits id cur w)) (of_ℕ (count_visits id prev w));
          quest_completions =
              wrap_pct (of_ℕ (count_quest_completions id cur w))
                (of_ℕ (count_quest_completions id prev w));
          avg_rating =
              wrap_abs (average_rating_in_period id cur w) (average_rating_in_period id prev w);
          repeat_visitors =
              wrap_pct (repeat_visitor_percent id cur w) (repeat_visitor_percent id prev w);
        }

    unfoldable pub get_metrics :
        ℕ → Option BusinessMetricsPeriod → ℕ → Action (World db) (BusinessMetricsDto F)
    get_metrics owner_id asked now = do
      found ← require_owned_business db owner_id
      let period = or_else asked thirty_d
      gets (metrics_of period found.0 (current_and_previous_window period now))

    unfoldable pub get_top_quests :
        Order Text
        → ℕ
        → Option BusinessMetricsPeriod
        → ℕ
        → ℕ
        → Action (World db) (List (BusinessTopQuestDto F))
    get_top_quests collation owner_id asked limit now = do
      found ← require_owned_business db owner_id
      let windows = current_and_previous_window (or_else asked thirty_d) now
      gets (λ w. map top_quest_dto (list_top_quests collation found.0 windows.current limit w))
