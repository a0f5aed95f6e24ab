-- ===== src/Stats.antt =====
-- The public figures of the landing page: src/modules/stats/stats.service.ts, with its cache, over
-- src/modules/stats/stats.repository.ts. `collation` is the order of texts in the database, and
-- `averages` that of stored ratings.
pub mod Cache
pub mod Freshness
use sidequest_demo_be.Common.{
  ℕ, ◌+◌, Bool, true, false, not, ◌&&◌, ◌||◌, Option, none, some, List, [], ◌∷◌, ◌++◌, map, ◌==◌,
  ltb, if◌then◌else◌,
}
use sidequest_demo_be.Common.Sorting.{
  Order, any_order, ascending, by, reversed, then_by, nulls_last, sort,
}
use sidequest_demo_be.Common.Text.{Text, trim, is_space, text_eq}
use sidequest_demo_be.Geo.{Float}
use sidequest_demo_be.Gamification.{Ratio}
use sidequest_demo_be.Links.{TextMethods, SqlText}
use sidequest_demo_be.Effects.{Action, pure, gets, ◌>>=◌}
use sidequest_demo_be.Store.{counted, picked}
use sidequest_demo_be.Model.{User, Quest, QuestCompletion, is_published, is_completed}
use sidequest_demo_be.World.{Database, World}
use sidequest_demo_be.Invites.{is_active}
use sidequest_demo_be.Quests.Dto.{QuestDto}
use sidequest_demo_be.Quests.Reading.{get_by_id}

pub record PublicStatsCityDto : Type 0 where
  pub slug : Text
  pub name : Text
  pub explorers : ℕ

pub record PublicStatsDto (F : Type 0) : Type 0 where
  pub total_explorers : ℕ
  pub total_quests : ℕ
  pub total_quest_completions : ℕ
  pub total_distance_km : F
  pub cities : List PublicStatsCityDto
  pub featured_quest : Option (QuestDto F)

-- `CityExplorerRow`
pub record CityExplorerRow : Type 0 where
  pub slug : Text
  pub explorers : ℕ

-- `/[-_\s]/`
abbrev pub is_separator : ℕ → Bool
is_separator c = c == 45 || c == 95 || is_space c

abbrev pub push : ℕ → List Text → List Text
push c [] = (c ∷ []) ∷ []
push c (word ∷ words) = (c ∷ word) ∷ words

-- `split` at every separator; the empty words between two are filtered out after
unfoldable pub split_words : Text → List Text
split_words [] = [] ∷ []
split_words (c ∷ s) = let rest = split_words s in if is_separator c then [] ∷ rest else push c rest

-- `filter(Boolean)`
unfoldable pub nonempty_words : List Text → List Text
nonempty_words [] = []
nonempty_words (word ∷ words) =
    let rest = nonempty_words words in if text_eq word [] then rest else word ∷ rest

-- `join(' ')`
unfoldable pub join_words : List Text → Text
join_words [] = []
join_words (word ∷ []) = word
join_words (word ∷ next ∷ words) = word ++ 32 ∷ join_words (next ∷ words)

module _ (methods : TextMethods) where
  -- `part.charAt(0).toUpperCase() + part.slice(1).toLowerCase()`
  abbrev pub capitalize : Text → Text
  capitalize [] = []
  capitalize (c ∷ rest) = methods.to_upper_case (c ∷ []) ++ methods.to_lower_case rest

  unfoldable pub display_name_from_city_slug : Text → Text
  display_name_from_city_slug slug =
      if text_eq (trim slug) []
      then trim slug
      else join_words (map capitalize (nonempty_words (split_words (trim slug))))

-- one turn of `GROUP BY` with `COUNT(*)`
unfoldable pub count_city : Text → List CityExplorerRow → List CityExplorerRow
count_city slug [] = record { slug = slug; explorers = 1 } ∷ []
count_city slug (row ∷ rest) =
    let later = count_city slug rest in
    if text_eq row.slug slug
    then record row { explorers = row.explorers + 1 } ∷ rest
    else row ∷ later

unfoldable pub count_cities : (User → Text) → List (ℕ × User) → List CityExplorerRow
count_cities slug_of [] = []
count_cities slug_of ((id, u) ∷ rest) = count_city (slug_of u) (count_cities slug_of rest)

abbrev pub is_explorer : ℕ → User → Bool
is_explorer id u = is_active u.status

abbrev pub has_city : SqlText → ℕ → User → Bool
has_city sql id u = is_active u.status && not (text_eq (sql.btrim u.primary_city) [])

abbrev pub first_id : {Row : Type 0} → List (ℕ × Row) → Option ℕ
first_id [] = none
first_id (e ∷ rest) = some e.0

abbrev pub is_given : {A : Type 0} → Option A → Bool
is_given none = false
is_given (some a) = true

module _ (fl : Float) (db : Database fl.F) (methods : TextMethods) (sql : SqlText)
    (collation : Order Text) (averages : Order Ratio) where
  open fl use {F}

  -- `metersToKm`
  unfoldable pub meters_to_km : ℕ → F
  meters_to_km m =
      if m == 0
      then fl.of_ℕ 0
      else fl.div (fl.of_ℕ (fl.round (fl.mul (fl.div (fl.of_ℕ m) (fl.of_ℕ 1000)) (fl.of_ℕ 1000))))
          (fl.of_ℕ 1000)

  -- `loadCityExplorerCounts`
  abbrev pub city_slug : User → Text
  city_slug u = sql.lower (sql.btrim u.primary_city)

  abbrev pub most_explorers : Order CityExplorerRow
  most_explorers =
      then_by (reversed (by (λ row. row.explorers) ascending)) (by (λ row. row.slug) collation)

  unfoldable pub load_city_explorer_counts : World db → List CityExplorerRow
  load_city_explorer_counts w =
      sort most_explorers
        (count_cities city_slug (db.user.find_many (has_city sql) any_order w.users))

  abbrev pub city_dto : CityExplorerRow → PublicStatsCityDto
  city_dto row = record {
    slug = row.slug;
    name = display_name_from_city_slug methods row.slug;
    explorers = row.explorers;
  }

  -- the three queries for a featured quest
  abbrev pub is_featured : ℕ → Quest F → Bool
  is_featured id q = is_published q.status && is_given q.featured_at

  abbrev pub is_rated : ℕ → Quest F → Bool
  is_rated id q = is_published q.status && ltb 0 q.rating_count

  abbrev pub latest_featured : Order (ℕ × Quest F)
  latest_featured = reversed (by (λ e. e.1.featured_at) (nulls_last ascending))

  abbrev pub best_rated : Order (ℕ × Quest F)
  best_rated = then_by (reversed (by (λ e. e.1.rating_avg) (nulls_last averages))) (
      then_by (reversed (by (λ e. e.1.rating_count) ascending))
        (reversed (by (λ e. e.1.created_at) ascending)))

  abbrev pub latest : Order (ℕ × Quest F)
  latest = reversed (by (λ e. e.1.created_at) ascending)

  abbrev pub or_id : Option ℕ → Option ℕ → Option ℕ
  or_id none next = next
  or_id (some id) next = some id

  unfoldable pub featured_id : World db → Option ℕ
  featured_id w = or_id (first_id (db.quest.find_many is_featured latest_featured w.quests)) (
      or_id (first_id (db.quest.find_many is_rated best_rated w.quests))
        (first_id (db.quest.find_many (λ id q. is_published q.status) latest w.quests)))

  abbrev pub featured_dto : Option ℕ → Action (World db) (Option (QuestDto F))
  featured_dto none = pure none
  featured_dto (some id) = do dto ← get_by_id fl db id none; pure (some dto)

  unfoldable pub resolve_featured_quest_dto : Action (World db) (Option (QuestDto F))
  resolve_featured_quest_dto w = featured_dto (featured_id w) w

  -- `loadPlatformCounts` and `loadCityExplorerCounts`, as the answer has them
  unfoldable pub stats_with : Option (QuestDto F) → World db → PublicStatsDto F
  stats_with featured w = record {
    total_explorers = db.user.total (counted is_explorer) w.users;
    total_quests = db.quest.total (counted (λ id q. is_published q.status)) w.quests;
    total_quest_completions =
        db.quest_completion.total (counted (λ k c. is_completed c.status)) w.completions;
    total_distance_km =
        meters_to_km (db.user.total (picked is_explorer (λ e. e.1.distance_walked_m)) w.users);
    cities = map city_dto (load_city_explorer_counts w);
    featured_quest = featured;
  }

  -- the reads of `getPublicStats`
  unfoldable pub compute_stats : Action (World db) (PublicStatsDto F)
  compute_stats = do featured ← resolve_featured_quest_dto; gets (stats_with featured)
