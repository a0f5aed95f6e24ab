-- ===== src/Quests/Editing.antt =====
-- Creating, changing and deleting a quest: `create`, `update`, `delete` and `assertCanMutate` of
-- src/modules/quests/quests.service.ts. A field that a request leaves out is `none`; one that it
-- sends as null is not modelled. The row's identifier is what the database gives a new row.
pub mod Owners
use Prim.Native.String.{String}
use text.Mathlib.Text.{◌==◌ as str_eq}
use sidequest_demo_be.Common.{
  ℕ, ◌+◌, Bool, true, false, not, ◌&&◌, ◌||◌, Option, none, some, List, [], ◌∷◌, ◌==◌,
  if◌then◌else◌, or_else,
}
use sidequest_demo_be.Access.Roles.{AppRole, is_admin, is_moderator}
use sidequest_demo_be.Geo.{Float}
use sidequest_demo_be.Effects.{
  Action, ok, err, conflict, forbidden, not_found, record_not_found, pure, gets, or_throw, throw_if,
  modify, ◌>>=◌, ◌>>◌,
}
use sidequest_demo_be.Model.{
  Quest, QuestLocation, QuestDifficulty, QuestStatus, draft, easy, is_published, refers_to,
}
use sidequest_demo_be.World.{Database, World, find_quest, save_quest, update_quest}

-- `actor: { id, role }`
pub record Actor : Type 0 where
  pub id : ℕ
  pub role : AppRole

pub record CreateQuestLocationDto (F : Type 0) : Type 0 where
  pub name : Option String
  pub address : Option String
  pub latitude : F
  pub longitude : F
  pub radius_m : Option ℕ
  pub order_index : Option ℕ

pub record CreateQuestDto (F : Type 0) : Type 0 where
  pub slug : String
  pub title : String
  pub summary : Option String
  pub description : String
  pub difficulty : Option QuestDifficulty
  pub xp_reward : Option ℕ
  pub estimated_duration_min : Option ℕ
  pub category_id : Option ℕ
  pub business_id : Option ℕ
  pub image_url : Option String
  pub cover_image_url : Option String
  pub locations : List (CreateQuestLocationDto F)

pub record UpdateQuestDto : Type 0 where
  pub title : Option String
  pub summary : Option String
  pub description : Option String
  pub difficulty : Option QuestDifficulty
  pub status : Option QuestStatus
  pub xp_reward : Option ℕ
  pub estimated_duration_min : Option ℕ
  pub category_id : Option ℕ
  pub image_url : Option String
  pub cover_image_url : Option String
  pub starts_at : Option ℕ
  pub ends_at : Option ℕ

abbrev pub can_mutate : Actor → Option ℕ → Bool
can_mutate actor author_id =
    (is_admin actor.role || is_moderator actor.role) || refers_to author_id actor.id

-- a field that is left out keeps its value
abbrev pub or_keep : {A : Type 0} → Option A → Option A → Option A
or_keep none old = old
or_keep (some new) old = some new

-- `dto.locations.map((loc, idx) => ...)`, from an index on; `ids` names the new rows
abbrev pub create_locations :
    {F : Type 0} → (ℕ → ℕ) → ℕ → List (CreateQuestLocationDto F) → List (QuestLocation F)
create_locations ids idx [] = []
create_locations ids idx (loc ∷ rest) =
    record {
      id = ids idx;
      name = loc.name;
      address = loc.address;
      latitude = loc.latitude;
      longitude = loc.longitude;
      radius_m = or_else loc.radius_m 50;
      order_index = or_else loc.order_index idx;
    }
    ∷ create_locations ids (idx + 1) rest

-- The row of a new quest, with the defaults of the code and of the schema.
abbrev pub created_quest : {F : Type 0} → ℕ → (ℕ → ℕ) → CreateQuestDto F → ℕ → Quest F
created_quest author_id ids dto now = record {
  slug = dto.slug;
  title = dto.title;
  summary = dto.summary;
  description = dto.description;
  difficulty = or_else dto.difficulty easy;
  status = draft;
  xp_reward = or_else dto.xp_reward 50;
  estimated_duration_min = dto.estimated_duration_min;
  image_url = dto.image_url;
  cover_image_url = dto.cover_image_url;
  author_id = some author_id;
  category_id = dto.category_id;
  business_id = dto.business_id;
  tags = [];
  rating_avg = none;
  rating_count = 0;
  published_at = none;
  starts_at = none;
  ends_at = none;
  featured_at = none;
  created_at = now;
  locations = create_locations ids 0 dto.locations;
  reward_achievements = [];
}

-- `dto.status === PUBLISHED && !quest.publishedAt`
abbrev pub publication : Option QuestStatus → Option ℕ → ℕ → Option ℕ
publication status (some at) now = some at
publication none none now = none
publication (some status) none now = if is_published status then some now else none

abbrev pub updated_quest : {F : Type 0} → UpdateQuestDto → ℕ → Quest F → Quest F
updated_quest dto now q = record q {
  title = or_else dto.title q.title;
  summary = or_keep dto.summary q.summary;
  description = or_else dto.description q.description;
  difficulty = or_else dto.difficulty q.difficulty;
  status = or_else dto.status q.status;
  xp_reward = or_else dto.xp_reward q.xp_reward;
  estimated_duration_min = or_keep dto.estimated_duration_min q.estimated_duration_min;
  image_url = or_keep dto.image_url q.image_url;
  cover_image_url = or_keep dto.cover_image_url q.cover_image_url;
  category_id = or_keep dto.category_id q.category_id;
  published_at = publication dto.status q.published_at now;
  starts_at = or_keep dto.starts_at q.starts_at;
  ends_at = or_keep dto.ends_at q.ends_at;
}

module _ (fl : Float) (db : Database fl.F) where
  abbrev pub slug_is : String → ℕ → Quest fl.F → Bool
  slug_is slug id q = str_eq q.slug slug

  -- `connect: { id }` of a row that must be there, or of none
  connect : {Row : Type 0} → Option ℕ → (ℕ → World db → Option Row) → Action (World db) (Unit {0})
  connect none lookup w = (ok tt, w)
  connect (some id) lookup w = elim (lookup id w) [
    | none ↦ (err record_not_found, w)
    | some _ ↦ (ok tt, w)
  ]

  unfoldable pub create : ℕ → (ℕ → ℕ) → ℕ → CreateQuestDto fl.F → ℕ → Action (World db) (Quest fl.F)
  unfolding connect
  create new_id location_ids author_id dto now = do
    existing ← gets (λ w. db.quest.find_first (slug_is dto.slug) w.quests)
    elim existing [
      | some _ ↦ (λ w. (err (conflict "Quest slug already exists"), w))
      | none ↦ (do
        connect (some author_id) (λ id w. db.user.find id w.users)
        connect dto.category_id (λ id w. db.quest_category.find id w.categories)
        connect dto.business_id (λ id w. db.business.find id w.businesses)
        modify (save_quest db new_id (created_quest author_id location_ids dto now))
        pure (created_quest author_id location_ids dto now))
    ]

  assert_can_mutate : Actor → Option ℕ → Action (World db) (Unit {0})
  assert_can_mutate actor author_id =
      throw_if (not (can_mutate actor author_id)) (forbidden "Not allowed to mutate this quest")

  unfoldable pub update : Actor → ℕ → UpdateQuestDto → ℕ → Action (World db) (Quest fl.F)
  unfolding assert_can_mutate connect
  update actor quest_id dto now = do
    row ← find_quest db quest_id
    quest ← or_throw row (not_found "Quest not found")
    assert_can_mutate actor quest.author_id
    connect dto.category_id (λ id w. db.quest_category.find id w.categories)
    update_quest db quest_id (updated_quest dto now)

  -- the rows that `onDelete: Cascade` takes along, by the quest of their key or of the row, and those
  -- that `onDelete: SetNull` keeps
  abbrev pub of_quest : {Row : Type 0} → ℕ → ℕ × ℕ → Row → Bool
  of_quest quest_id k r = k.1 == quest_id

  abbrev pub without_quest : ℕ → World db → World db
  without_quest quest_id w = record w {
    quests = db.quest.remove quest_id w.quests;
    completions = db.quest_completion.delete_many (of_quest quest_id) w.completions;
    check_ins = db.quest_location_check_in.delete_many (λ k r. r.quest_id == quest_id) w.check_ins;
    ratings = db.quest_rating.delete_many (of_quest quest_id) w.ratings;
    business_visits =
        db.business_visit.update_many (λ k v. refers_to v.quest_id quest_id)
          (λ v. record v { quest_id = none }) w.business_visits;
  }

  unfoldable pub delete : Actor → ℕ → Action (World db) (Unit {0})
  unfolding assert_can_mutate
  delete actor quest_id = do
    row ← find_quest db quest_id
    quest ← or_throw row (not_found "Quest not found")
    assert_can_mutate actor quest.author_id
    modify (without_quest quest_id)
