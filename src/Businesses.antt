-- ===== src/Businesses.antt =====
-- Partners: src/modules/businesses/businesses.service.ts over
-- src/modules/businesses/businesses.repository.ts. `new_id` is the identifier that the database gives
-- a new row, and `ilike` is `contains` with `mode: 'insensitive'`.
pub mod Windows
pub mod Portal
pub mod Owners
use Prim.Native.String.{String}
use text.Mathlib.Text.{◌==◌ as str_eq}
use sidequest_demo_be.Common.{ℕ, Bool, true, false, ◌||◌, Option, none, some, List, [], ◌∷◌, map}
use sidequest_demo_be.Common.Sorting.{Order, ascending, by, reversed}
use sidequest_demo_be.Common.Text.{Text, codes}
use sidequest_demo_be.Pagination.{PaginationQuery, PaginatedResult, skip, paginate}
use sidequest_demo_be.Effects.{
  Action, Exception, Result, http, ok, err, conflict, not_found, record_not_found, pure, gets,
  throw, or_throw, modify, ◌>>=◌, ◌>>◌,
}
use sidequest_demo_be.Store.{counted}
use sidequest_demo_be.Store.Paging.{page_rows}
use sidequest_demo_be.Model.{Business, BusinessStatus, refers_to}
use sidequest_demo_be.World.{Database, World, find_user}
use sidequest_demo_be.Quests.Dto.{passes, nonempty_text}

-- `BusinessDto`, without `updatedAt`
pub record BusinessDto (F : Type 0) : Type 0 where
  pub id : ℕ
  pub slug : String
  pub name : String
  pub description : Option String
  pub website_url : Option String
  pub logo_url : Option String
  pub status : BusinessStatus
  pub address : Option String
  pub latitude : Option F
  pub longitude : Option F
  pub owner_id : Option ℕ
  pub onboarding_started_at : Option ℕ
  pub created_at : ℕ

unfoldable pub from_entity : {F : Type 0} → ℕ → Business F → BusinessDto F
from_entity id b = record {
  id = id;
  slug = b.slug;
  name = b.name;
  description = b.description;
  website_url = b.website_url;
  logo_url = b.logo_url;
  status = b.status;
  address = b.address;
  latitude = b.latitude;
  longitude = b.longitude;
  owner_id = b.owner_id;
  onboarding_started_at = b.onboarding_started_at;
  created_at = b.created_at;
}

pub record CreateBusinessDto (F : Type 0) : Type 0 where
  pub slug : String
  pub name : String
  pub description : Option String
  pub website_url : Option String
  pub logo_url : Option String
  pub address : Option String
  pub latitude : Option F
  pub longitude : Option F

-- a new row, with the defaults of the schema
abbrev pub new_business : {F : Type 0} → ℕ → CreateBusinessDto F → ℕ → Business F
new_business owner_id dto now = record {
  slug = dto.slug;
  name = dto.name;
  description = dto.description;
  website_url = dto.website_url;
  logo_url = dto.logo_url;
  status = BusinessStatus.pending_verification;
  address = dto.address;
  latitude = dto.latitude;
  longitude = dto.longitude;
  owner_id = some owner_id;
  onboarding_started_at = none;
  created_at = now;
}

abbrev pub has_slug : {F : Type 0} → String → ℕ → Business F → Bool
has_slug slug id b = str_eq b.slug slug

abbrev pub owned_by : {F : Type 0} → ℕ → ℕ → Business F → Bool
owned_by owner_id id b = refers_to b.owner_id owner_id

-- the `OR` over name and slug
abbrev pub matches : {F : Type 0} → (Text → Text → Bool) → Option Text → ℕ → Business F → Bool
matches ilike search id b =
    passes (nonempty_text search) (λ text. ilike (codes b.name) text || ilike (codes b.slug) text)

abbrev pub newest : {F : Type 0} → Order (ℕ × Business F)
newest = reversed (by (λ e. e.1.created_at) ascending)

abbrev pub first_row : {Row : Type 0} → List (ℕ × Row) → Option (ℕ × Row)
first_row [] = none
first_row (e ∷ rest) = some e

-- the exception of `requireOwnedBusiness`
abbrev pub no_business : Exception
no_business =
    http 403 (some "FORBIDDEN") "Business portal is only available when you own a business"

module _ {F : Type 0} (db : Database F) where
  unfoldable pub get_by_id : ℕ → Action (World db) (BusinessDto F)
  get_by_id id = do
    row ← gets (λ w. db.business.find id w.businesses)
    b ← or_throw row (not_found "Business not found")
    pure (from_entity id b)

  unfoldable pub list :
      (Text → Text → Bool)
      → PaginationQuery
      → Option Text
      → World db
      → PaginatedResult (BusinessDto F)
  list ilike query search w =
      paginate
        (map (λ (e : ℕ × Business F). from_entity e.0 e.1)
          (page_rows db.business (matches ilike search) newest (skip query) query.limit
            w.businesses))
        query.page query.limit (db.business.total (counted (matches ilike search)) w.businesses)

  abbrev pub save_business : ℕ → Business F → World db → World db
  save_business id b w = record w { businesses = db.business.save id b w.businesses }

  unfoldable pub create : ℕ → ℕ → CreateBusinessDto F → ℕ → Action (World db) (BusinessDto F)
  create new_id owner_id dto now = do
    existing ← gets (λ w. db.business.find_first (has_slug dto.slug) w.businesses)
    elim existing [
      | some _ ↦ throw (conflict "Business slug already exists")
      | none ↦ (do
        owner ← find_user db owner_id
        or_throw owner record_not_found
        modify (save_business new_id (new_business owner_id dto now))
        pure (from_entity new_id (new_business owner_id dto now)))
    ]

  -- `findByOwnerId`: the newest of the owner's
  abbrev pub find_by_owner_id : ℕ → World db → Option (ℕ × Business F)
  find_by_owner_id owner_id w =
      first_row (db.business.find_many (owned_by owner_id) newest w.businesses)

  unfoldable pub require_owned_business : ℕ → Action (World db) (ℕ × Business F)
  require_owned_business owner_id = do
    row ← gets (find_by_owner_id owner_id)
    or_throw row no_business

  unfoldable pub get_mine : ℕ → Action (World db) (BusinessDto F)
  get_mine owner_id = do found ← require_owned_business owner_id; pure (from_entity found.0 found.1)

  -- `update`
  abbrev pub update_business : ℕ → (Business F → Business F) → Action (World db) (Business F)
  update_business id f w = elim (db.business.find id w.businesses) [
    | none ↦ (err record_not_found, w)
    | some b ↦ (ok (f b), save_business id (f b) w)
  ]

  unfoldable pub start_onboarding : ℕ → ℕ → Action (World db) (BusinessDto F)
  start_onboarding owner_id now = do
    found ← require_owned_business owner_id
    updated ← update_business found.0 (λ b. record b { onboarding_started_at = some now })
    pure (from_entity found.0 updated)
