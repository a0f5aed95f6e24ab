-- ===== src/Quests/Reading.antt =====
-- Reading quests: `list`, `getById`, `getBySlug`, `loadCheckedLocationIds` and `toDto`
-- of src/modules/quests/quests.service.ts, over src/modules/quests/quests.repository.ts, and the
-- categories of src/modules/quests/quest-categories.service.ts. `ilike` is `contains` with
-- `mode: 'insensitive'`, and `collation` the order of texts in the database.
pub mod Flags
pub mod Pages
pub mod Nearby
use Prim.Native.String.{String}
use text.Mathlib.Text.{◌==◌ as str_eq}
use sidequest_demo_be.Common.{
  ℕ, ◌≡◌, Bool, true, false, not, ◌&&◌, Option, none, some, List, [], ◌∷◌, map, any, take, ◌==◌,
  if◌then◌else◌, or_else,
}
use sidequest_demo_be.Common.Sorting.{Order, ascending, any_order, by, reversed, sort}
use sidequest_demo_be.Common.Text.{Text, codes}
use sidequest_demo_be.Gamification.{Ratio}
use sidequest_demo_be.Geo.{Float, Coordinates, BoundingBox, haversine_meters, bounding_box}
use sidequest_demo_be.Pagination.{PaginationQuery, PaginatedResult, skip, paginate}
use sidequest_demo_be.Effects.{
  Action, Result, ok, err, bad_request, not_found, pure, gets, or_throw, ◌>>=◌,
}
use sidequest_demo_be.Store.{counted}
use sidequest_demo_be.Store.Paging.{page_rows}
use sidequest_demo_be.Model.{
  Quest, QuestLocation, QuestCategory, QuestCompletion, QuestLocationCheckIn, QuestDifficulty,
  QuestStatus, AchievementSummary, ParticipantSummary, User, draft, published, archived, easy,
  medium, hard, epic, is_published, refers_to,
}
use sidequest_demo_be.World.{Database, World, find_quest}
use sidequest_demo_be.Quests.Distance.{coordinates}
use sidequest_demo_be.Quests.Editing.{slug_is}
use sidequest_demo_be.Quests.Dto.{
  QuestLocationDto, QuestCategoryDto, QuestDto, ListQuestsDto, ListQuestsNearbyDto, same_status,
  same_difficulty, passes, nonempty, nonempty_text, category_dto, summary_row,
}

abbrev pub is_slug : String → ℕ → QuestCategory → Bool
is_slug slug id c = str_eq c.slug slug

abbrev pub checked_flag : Option (List ℕ) → ℕ → Option Bool
checked_flag none id = none
checked_flag (some checked) id = some (any (λ x. x == id) checked)

module _ (fl : Float) (db : Database fl.F) where
  open fl use {F}

  -- `Math.round(haversineMeters(...))`, where there is a point to measure from
  abbrev pub distance_to : Option (Coordinates F) → QuestLocation F → Option ℕ
  distance_to none loc = none
  distance_to (some center) loc = some (fl.round (haversine_meters fl center (coordinates loc)))

  abbrev pub location_dto :
      Option (Coordinates F) → Option (List ℕ) → QuestLocation F → QuestLocationDto F
  location_dto distance_from checked loc = record {
    id = loc.id;
    name = loc.name;
    address = loc.address;
    latitude = loc.latitude;
    longitude = loc.longitude;
    radius_m = loc.radius_m;
    order_index = loc.order_index;
    distance_m = distance_to distance_from loc;
    is_completed = checked_flag checked loc.id;
  }

  -- `questCategoryPublishedCountInclude`
  abbrev pub published_in : ℕ → ℕ → Quest F → Bool
  published_in category_id id q = is_published q.status && refers_to q.category_id category_id

  abbrev pub with_count : World db → ℕ → QuestCategory → QuestCategoryDto
  with_count w id c = category_dto id c (db.quest.total (counted (published_in id)) w.quests)

  abbrev pub category_of : World db → Option ℕ → Option QuestCategoryDto
  category_of w none = none
  category_of w (some id) = elim (db.quest_category.find id w.categories) [
    | none ↦ none
    | some c ↦ some (with_count w id c)
  ]

  -- `completions`, `take: 6`, the latest start first
  abbrev pub completion_of : ℕ → ℕ × ℕ → QuestCompletion → Bool
  completion_of quest_id k c = k.1 == quest_id

  abbrev pub latest_start : Order ((ℕ × ℕ) × QuestCompletion)
  latest_start = reversed (by (λ e. e.1.started_at) ascending)

  abbrev pub participants_of : World db → List ((ℕ × ℕ) × QuestCompletion) → List ParticipantSummary
  participants_of w [] = []
  participants_of w ((k, c) ∷ rest) =
      summary_row k.0 (db.user.find k.0 w.users) (participants_of w rest)

  -- `toDto`, with what `QUEST_INCLUDE` reads
  unfoldable pub to_dto :
      World db → Option (Coordinates F) → Option (List ℕ) → ℕ → Quest F → QuestDto F
  to_dto w distance_from checked id q = record {
    id = id;
    slug = q.slug;
    title = q.title;
    summary = q.summary;
    description = q.description;
    difficulty = q.difficulty;
    status = q.status;
    xp_reward = q.xp_reward;
    estimated_duration_min = q.estimated_duration_min;
    image_url = q.image_url;
    cover_image_url = q.cover_image_url;
    category_id = q.category_id;
    business_id = q.business_id;
    author_id = q.author_id;
    published_at = q.published_at;
    created_at = q.created_at;
    locations =
        map (location_dto distance_from checked)
          (sort (by (λ (loc : QuestLocation F). loc.order_index) ascending) q.locations);
    distance_m = none;
    tags = q.tags;
    rating = q.rating_avg;
    rating_count = q.rating_count;
    participant_count = db.quest_completion.total (counted (completion_of id)) w.completions;
    participants =
        participants_of w
          (take 6 (db.quest_completion.find_many (completion_of id) latest_start w.completions));
    category = category_of w q.category_id;
    rewards = record { xp = q.xp_reward; achievements = q.reward_achievements };
  }

  -- `category: { slug }`
  abbrev pub in_category : World db → Option ℕ → String → Bool
  in_category w none slug = false
  in_category w (some id) slug = elim (db.quest_category.find id w.categories) [
    | none ↦ false
    | some c ↦ str_eq c.slug slug
  ]

  abbrev pub meets : (Text → Text → Bool) → ListQuestsDto → World db → ℕ → Quest F → Bool
  meets ilike query w id q =
      same_status q.status (or_else query.status published)
      && passes query.difficulty (same_difficulty q.difficulty)
      && passes (nonempty query.category_slug) (in_category w q.category_id)
      && passes (nonempty_text query.search) (ilike (codes q.title))

  abbrev pub newest : Order (ℕ × Quest F)
  newest = reversed (by (λ e. e.1.created_at) ascending)

  unfoldable pub list :
      (Text → Text → Bool) → ListQuestsDto → World db → PaginatedResult (QuestDto F)
  list ilike query w =
      paginate
        (map (λ (e : ℕ × Quest F). to_dto w none none e.0 e.1)
          (page_rows db.quest (meets ilike query w) newest (skip query.query) query.query.limit
            w.quests))
        query.query.page query.query.limit (db.quest.total (counted (meets ilike query w)) w.quests)

  -- `loadCheckedLocationIds`
  abbrev pub check_in_of : ℕ → ℕ → ℕ × ℕ → QuestLocationCheckIn F → Bool
  check_in_of user_id quest_id k c = k.0 == user_id && c.quest_id == quest_id

  unfoldable pub load_checked_location_ids : ℕ → ℕ → World db → List ℕ
  load_checked_location_ids user_id quest_id w =
      map (λ (e : (ℕ × ℕ) × QuestLocationCheckIn F). e.0.1)
        (db.quest_location_check_in.find_many (check_in_of user_id quest_id) any_order w.check_ins)

  abbrev pub checked_for : Option ℕ → ℕ → World db → Option (List ℕ)
  checked_for none quest_id w = none
  checked_for (some viewer) quest_id w = some (load_checked_location_ids viewer quest_id w)

  unfoldable pub get_by_id : ℕ → Option ℕ → Action (World db) (QuestDto F)
  get_by_id id viewer = do
    row ← find_quest db id
    quest ← or_throw row (not_found "Quest not found")
    gets (λ w. to_dto w none (checked_for viewer id w) id quest)

  unfoldable pub get_by_slug : String → Option ℕ → Action (World db) (QuestDto F)
  get_by_slug slug viewer = do
    row ← gets (λ w. db.quest.find_first (slug_is fl db slug) w.quests)
    found ← or_throw row (not_found "Quest not found")
    gets (λ w. to_dto w none (checked_for viewer found.0 w) found.0 found.1)

  -- `QuestCategoriesService.listAll` and `getBySlug`
  unfoldable pub list_categories : Order Text → World db → List QuestCategoryDto
  list_categories collation w =
      map (λ (e : ℕ × QuestCategory). with_count w e.0 e.1)
        (db.quest_category.find_many (λ id c. true)
          (by (λ (e : ℕ × QuestCategory). codes e.1.name) collation) w.categories)

  unfoldable pub get_category_by_slug : String → Action (World db) QuestCategoryDto
  get_category_by_slug slug = do
    row ← gets (λ w. db.quest_category.find_first (is_slug slug) w.categories)
    found ← or_throw row (not_found "Category not found")
    gets (λ w. with_count w found.0 found.1)
