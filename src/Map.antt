-- ===== src/Map.antt =====
-- The pins of the map: src/modules/map/map.service.ts.
pub mod KindNames
pub mod Viewport
use Prim.Native.String.{String}
use text.Mathlib.Text.{◌==◌ as str_eq}
use sidequest_demo_be.Common.{
  ℕ, Bool, true, false, not, ◌&&◌, ◌||◌, Option, none, some, List, [], ◌∷◌, ◌++◌, map, take, ◌==◌,
  if◌then◌else◌, or_else,
}
use sidequest_demo_be.Common.Sorting.{any_order}
use sidequest_demo_be.Common.Text.{Text, codes, trim, text_eq}
use sidequest_demo_be.Geo.{Float, Coordinates, haversine_meters}
use sidequest_demo_be.Links.{TextMethods}
use sidequest_demo_be.Effects.{Action, bad_request, gets, throw}
use sidequest_demo_be.Model.{
  Quest, QuestLocation, QuestCategory, QuestDifficulty, Business, BusinessStatus, is_published,
}
use sidequest_demo_be.World.{Database, World}
use sidequest_demo_be.Quests.Dto.{same_difficulty, passes, nonempty, nonempty_text}
use sidequest_demo_be.Quests.Reading.{in_category}

pub record MapBoundsQueryDto (F : Type 0) : Type 0 where
  pub south : Option F
  pub north : Option F
  pub west : Option F
  pub east : Option F
  pub limit : Option ℕ
  pub category_slug : Option String
  pub difficulty : Option QuestDifficulty
  pub kinds : Option Text

pub data PinKind : Type 0 where
  quest business : PinKind

pub record MapPinDto (F : Type 0) : Type 0 where
  pub id : ℕ
  pub kind : PinKind
  pub latitude : F
  pub longitude : F
  pub title : String
  pub ref_id : ℕ
  pub difficulty : Option QuestDifficulty
  pub image_url : Option String
  pub category_slug : Option String
  pub color_hex : Option String
  pub distance_m : Option ℕ

-- a subset of `ALL_KINDS`
pub record Kinds : Type 0 where
  pub quests : Bool
  pub businesses : Bool

abbrev pub all_kinds : Kinds
all_kinds = record { quests = true; businesses = true }

abbrev pub push : ℕ → List Text → List Text
push c [] = (c ∷ []) ∷ []
push c (piece ∷ pieces) = (c ∷ piece) ∷ pieces

-- `split(',')`
unfoldable pub split_commas : Text → List Text
split_commas [] = [] ∷ []
split_commas (c ∷ s) = let rest = split_commas s in if c == 44 then [] ∷ rest else push c rest

-- `if (ALL_KINDS.has(trimmed)) out.add(trimmed)`
abbrev pub add_kind : Text → Kinds → Kinds
add_kind trimmed out = record {
  quests = text_eq trimmed (codes "QUEST") || out.quests;
  businesses = text_eq trimmed (codes "BUSINESS") || out.businesses;
}

module _ (methods : TextMethods) where
  unfoldable pub collect_kinds : List Text → Kinds
  collect_kinds [] = record { quests = false; businesses = false }
  collect_kinds (piece ∷ pieces) =
      add_kind (methods.to_upper_case (trim piece)) (collect_kinds pieces)

  abbrev pub or_all : Kinds → Kinds
  or_all out = if not out.quests && not out.businesses then all_kinds else out

  abbrev pub kinds_of : Option Text → Kinds
  kinds_of none = all_kinds
  kinds_of (some raw) = or_all (collect_kinds (split_commas raw))

  -- `parseKinds`
  unfoldable pub parse_kinds : Option Text → Kinds
  parse_kinds raw = kinds_of (nonempty_text raw)

-- The corners of the viewport.
pub record Bounds (F : Type 0) : Type 0 where
  pub south : F
  pub north : F
  pub west : F
  pub east : F

abbrev pub all_given : {F : Type 0} → MapBoundsQueryDto F → Option (Bounds F)
all_given query = elim query.south [
  | none ↦ none
  | some south ↦ elim query.north [
    | none ↦ none
    | some north ↦ elim query.west [
      | none ↦ none
      | some west ↦ elim query.east [
        | none ↦ none
        | some east ↦ some (record { south = south; north = north; west = west; east = east })
      ]
    ]
  ]
]

abbrev pub is_missing : {A : Type 0} → Option A → Bool
is_missing none = true
is_missing (some a) = false

abbrev pub is_verified : BusinessStatus → Bool
is_verified BusinessStatus.verified = true
is_verified _ = false

-- A location with its quest, as `QUEST_LOCATION_PIN_SELECT` reads it.
pub record QuestLocationPinRow (F : Type 0) : Type 0 where
  pub location : QuestLocation F
  pub quest_id : ℕ
  pub quest : Quest F

module _ (fl : Float) (db : Database fl.F) where
  open fl use {F, le}

  abbrev pub contains : Bounds F → F → F → Bool
  contains b latitude longitude =
      le b.south latitude && le latitude b.north && (le b.west longitude && le longitude b.east)

  -- `questWhere`
  abbrev pub is_shown : MapBoundsQueryDto F → World db → ℕ → Quest F → Bool
  is_shown query w id q =
      is_published q.status
      && passes query.difficulty (same_difficulty q.difficulty)
      && passes (nonempty query.category_slug) (in_category fl db w q.category_id)

  unfoldable pub locations_within :
      Bounds F → ℕ → Quest F → List (QuestLocation F) → List (QuestLocationPinRow F)
  locations_within b id q [] = []
  locations_within b id q (loc ∷ rest) =
      let more = locations_within b id q rest in
      if contains b loc.latitude loc.longitude
      then record { location = loc; quest_id = id; quest = q } ∷ more
      else more

  unfoldable pub rows_within : Bounds F → List (ℕ × Quest F) → List (QuestLocationPinRow F)
  rows_within b [] = []
  rows_within b ((id, q) ∷ rest) = locations_within b id q q.locations ++ rows_within b rest

  -- `questLocation.findMany`
  abbrev pub quest_rows :
      MapBoundsQueryDto F → Bounds F → ℕ → World db → List (QuestLocationPinRow F)
  quest_rows query b limit w =
      take limit (rows_within b (db.quest.find_many (is_shown query w) any_order w.quests))

  abbrev pub is_located : Bounds F → Option F → Option F → Bool
  is_located b none longitude = false
  is_located b (some latitude) none = false
  is_located b (some latitude) (some longitude) = contains b latitude longitude

  abbrev pub is_shown_business : Bounds F → ℕ → Business F → Bool
  is_shown_business b id row = is_verified row.status && is_located b row.latitude row.longitude

  -- `business.findMany`
  abbrev pub business_rows : Bounds F → ℕ → World db → List (ℕ × Business F)
  business_rows b limit w =
      take limit (db.business.find_many (is_shown_business b) any_order w.businesses)

  abbrev pub with_category : Option QuestCategory → MapPinDto F → MapPinDto F
  with_category none pin = pin
  with_category (some c) pin = record pin { category_slug = some c.slug; color_hex = c.color_hex }

  abbrev pub category_row : World db → Option ℕ → Option QuestCategory
  category_row w none = none
  category_row w (some id) = db.quest_category.find id w.categories

  unfoldable pub build_quest_pin : World db → QuestLocationPinRow F → MapPinDto F
  build_quest_pin w row = with_category (category_row w row.quest.category_id) (record {
    id = row.location.id;
    kind = PinKind.quest;
    latitude = row.location.latitude;
    longitude = row.location.longitude;
    title = row.quest.title;
    ref_id = row.quest_id;
    difficulty = some row.quest.difficulty;
    image_url = row.quest.image_url;
    category_slug = none;
    color_hex = none;
    distance_m = none;
  })

  abbrev pub business_pin : ℕ → Business F → F → F → MapPinDto F
  business_pin id row latitude longitude = record {
    id = id;
    kind = PinKind.business;
    latitude = latitude;
    longitude = longitude;
    title = row.name;
    ref_id = id;
    difficulty = none;
    image_url = row.logo_url;
    category_slug = none;
    color_hex = none;
    distance_m = none;
  }

  -- `null` where a coordinate is
  unfoldable pub build_business_pin : ℕ → Business F → Option F → Option F → Option (MapPinDto F)
  build_business_pin id row none longitude = none
  build_business_pin id row (some latitude) none = none
  build_business_pin id row (some latitude) (some longitude) =
      some (business_pin id row latitude longitude)

  abbrev pub push_pin : Option (MapPinDto F) → List (MapPinDto F) → List (MapPinDto F)
  push_pin none pins = pins
  push_pin (some pin) pins = pin ∷ pins

  -- `.map(...).filter((p) => p !== null)`
  unfoldable pub business_pins : List (ℕ × Business F) → List (MapPinDto F)
  business_pins [] = []
  business_pins ((id, row) ∷ rest) =
      push_pin (build_business_pin id row row.latitude row.longitude) (business_pins rest)

  abbrev pub center_of : Bounds F → Coordinates F
  center_of b = record {
    latitude = fl.div (fl.add b.south b.north) (fl.of_ℕ 2);
    longitude = fl.div (fl.add b.west b.east) (fl.of_ℕ 2);
  }

  -- a turn of `attachDistance`
  abbrev pub attach_distance : Bounds F → MapPinDto F → MapPinDto F
  attach_distance b pin = record pin {
    distance_m = some (
        fl.round (
          haversine_meters fl (center_of b)
            (record { latitude = pin.latitude; longitude = pin.longitude })));
  }

  module _ (methods : TextMethods) where
    abbrev pub wants_quests : MapBoundsQueryDto F → Bool
    wants_quests query = (parse_kinds methods query.kinds).quests

    abbrev pub wants_businesses : MapBoundsQueryDto F → Bool
    wants_businesses query =
        (parse_kinds methods query.kinds).businesses
        && (is_missing (nonempty query.category_slug) && is_missing query.difficulty)

    unfoldable pub pins_in : MapBoundsQueryDto F → Bounds F → World db → List (MapPinDto F)
    pins_in query b w =
        let limit = or_else query.limit 200 in
        let quests = if wants_quests query then quest_rows query b limit w else [] in
        let businesses = if wants_businesses query then business_rows b limit w else [] in
        map (attach_distance b) (map (build_quest_pin w) quests ++ business_pins businesses)

    unfoldable pub get_pins_in_bounds : MapBoundsQueryDto F → Action (World db) (List (MapPinDto F))
    get_pins_in_bounds query = elim (all_given query) [
      | none ↦ throw (bad_request "south, north, west, east are all required")
      | some b ↦
          if le b.north b.south || le b.east b.west
          then throw (bad_request "Invalid bounds: south<north and west<east required")
          else gets (pins_in query b)
    ]
