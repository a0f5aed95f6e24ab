-- ===== src/Quests/Reading/Nearby.antt =====
-- Quests near a point: `listNearby` of src/modules/quests/quests.service.ts and
-- `findWithinBoundingBox` of src/modules/quests/quests.repository.ts. `closer` orders distances as
-- `a - b` does, for numbers that are not NaN.
pub mod Radius
use sidequest_demo_be.Common.{
  ℕ, ◌≤◌, ◌≡◌, ◌⊎◌, inl, inr, refl, Bool, true, false, not, ◌&&◌, Option, none, some, List, [], ◌∷◌,
  map, any, take, arith, length, if◌then◌else◌, or_else, All, Any,
}
use sidequest_demo_be.Common.Sorting.{Order, any_order, by, sort, Sorted}
use sidequest_demo_be.Geo.{Float, Coordinates, BoundingBox, haversine_meters, bounding_box}
use sidequest_demo_be.Effects.{Action, ok, bad_request, gets, throw}
use sidequest_demo_be.Model.{Quest, QuestLocation, is_published}
use sidequest_demo_be.World.{Database, World}
use sidequest_demo_be.Quests.Distance.{coordinates}
use sidequest_demo_be.Quests.Dto.{QuestDto, ListQuestsNearbyDto, same_difficulty, passes, nonempty}
use sidequest_demo_be.Quests.Reading.{to_dto, in_category}

-- `{ quest, distance }`
pub record Near (F : Type 0) : Type 0 where
  pub id : ℕ
  pub quest : Quest F
  pub distance : F

module _ (fl : Float) (db : Database fl.F) where
  open fl use {F, le, lt}

  abbrev pub in_box : BoundingBox F → QuestLocation F → Bool
  in_box box loc =
      le box.min_lat loc.latitude
      && le loc.latitude box.max_lat
      && (le box.min_lng loc.longitude && le loc.longitude box.max_lng)

  abbrev pub is_candidate : ListQuestsNearbyDto F → BoundingBox F → World db → ℕ → Quest F → Bool
  is_candidate query box w id q =
      is_published q.status
      && passes query.difficulty (same_difficulty q.difficulty)
      && passes (nonempty query.category_slug) (in_category fl db w q.category_id)
      && any (in_box box) q.locations

  -- `findWithinBoundingBox`, with `limit: 200`
  unfoldable pub find_within_bounding_box :
      ListQuestsNearbyDto F → BoundingBox F → World db → List (ℕ × Quest F)
  find_within_bounding_box query box w =
      take 200 (db.quest.find_many (is_candidate query box w) any_order w.quests)

  abbrev pub distance_of : Coordinates F → QuestLocation F → F
  distance_of center loc = haversine_meters fl center (coordinates loc)

  -- `if (d < nearest) nearest = d`, where `none` is `Infinity`
  abbrev pub nearer : Option F → F → F
  nearer none d = d
  nearer (some n) d = if lt d n then d else n

  unfoldable pub nearest : Coordinates F → Option F → List (QuestLocation F) → Option F
  nearest center best [] = best
  nearest center best (loc ∷ rest) =
      nearest center (some (nearer best (distance_of center loc))) rest

  -- `if (nearest <= radius) refined.push({ quest, distance: nearest })`
  abbrev pub push_near : F → ℕ → Quest F → Option F → List (Near F) → List (Near F)
  push_near radius id q none more = more
  push_near radius id q (some d) more =
      if le d radius then record { id = id; quest = q; distance = d } ∷ more else more

  -- the loop over the candidates
  unfoldable pub refine : Coordinates F → F → List (ℕ × Quest F) → List (Near F)
  refine center radius [] = []
  refine center radius ((id, q) ∷ rest) =
      let more = refine center radius rest in
      push_near radius id q (nearest center none q.locations) more

  abbrev pub show_near : Coordinates F → World db → Near F → QuestDto F
  show_near center w n = record (to_dto fl db w (some center) none n.id n.quest) {
    distance_m = some (fl.round n.distance);
  }

  abbrev pub radius_of : ListQuestsNearbyDto F → F
  radius_of query = fl.of_ℕ (or_else query.radius_m 5000)

  unfoldable pub near_quests :
      Order F → ListQuestsNearbyDto F → Coordinates F → World db → List (Near F)
  near_quests closer query center w =
      let radius = radius_of query in
      sort (by (λ (n : Near F). n.distance) closer)
        (refine center radius (find_within_bounding_box query (bounding_box fl center radius) w))

  unfoldable pub list_nearby :
      Order F → ListQuestsNearbyDto F → Action (World db) (List (QuestDto F))
  list_nearby closer query = elim query.lat [
    | none ↦ throw (bad_request "lat and lng are required")
    | some lat ↦ elim query.lng [
      | none ↦ throw (bad_request "lat and lng are required")
      | some lng ↦
          let center : Coordinates F = record { latitude = lat; longitude = lng } in
          gets (λ w. map (show_near center w) (near_quests closer query center w))
    ]
  ]
