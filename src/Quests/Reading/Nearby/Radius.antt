-- ===== src/Quests/Reading/Nearby/Radius.antt =====
-- What `listNearby` of src/modules/quests/quests.service.ts answers: the quests within the radius,
-- at the distance of their nearest stop, the nearest first.
use sidequest_demo_be.Common.{
  ℕ, ◌+◌, ◌≤◌, ◌≡◌, ◌⊎◌, inl, inr, refl, true, not, Option, none, some, List, [], ◌∷◌, map, arith,
  length, All, Any, All-take, All-imp, Bool-cases, length-take,
}
use sidequest_demo_be.Common.Sorting.{
  Order, any_order, by, Sorted, Sorted-sort, All-sort, length-sort,
}
use sidequest_demo_be.Geo.{Float, Coordinates, BoundingBox, bounding_box}
use sidequest_demo_be.Effects.{ok}
use sidequest_demo_be.Model.{Quest, QuestLocation, is_published}
use sidequest_demo_be.World.{Database, World}
use sidequest_demo_be.Quests.Dto.{ListQuestsNearbyDto}
use sidequest_demo_be.Quests.Reading.Nearby.{
  Near, is_candidate, find_within_bounding_box, distance_of, nearer, nearest, push_near, refine,
  radius_of, near_quests, show_near, list_nearby,
}

module _ (fl : Float) (db : Database fl.F) (closer : Order fl.F)
    (lt_iff : (a b : fl.F) → fl.lt a b ≡ not (closer.le b a)) (center : Coordinates fl.F) where
  abbrev distance : QuestLocation fl.F → fl.F
  distance loc = distance_of fl db center loc

  -- The least of the distances of the stops.
  abbrev pub IsLeast : fl.F → List (QuestLocation fl.F) → Type 0
  IsLeast d locs =
      Any (λ loc. distance loc ≡ d) locs × All (λ loc. closer.le d (distance loc) ≡ true) locs

  step_least :
      (n x d : fl.F)
      → closer.le d (nearer fl db (some n) x) ≡ true
      → (closer.le d n ≡ true) × (closer.le d x ≡ true)
  step_least n x d h =
      ground (arith, lt_iff x n, closer.le_total n x, closer.le_trans d x n, closer.le_trans d n x)

  nearest_below :
      (n d : fl.F) (locs : List (QuestLocation fl.F))
      → nearest fl db center (some n) locs ≡ some d
      → (closer.le d n ≡ true) × All (λ loc. closer.le d (distance loc) ≡ true) locs
  unfolding nearest
  nearest_below n d [] h = (ground (arith, closer.le_total n n), tt)
  nearest_below n d (loc ∷ rest) h =
      let (least, more) = nearest_below (nearer fl db (some n) (distance loc)) d rest h in
      let (below, here) = step_least n (distance loc) d least in (below, (here, more))

  nearest_from :
      (n d : fl.F) (locs : List (QuestLocation fl.F))
      → nearest fl db center (some n) locs ≡ some d
      → (n ≡ d) ⊎ Any (λ loc. distance loc ≡ d) locs
  unfolding nearest
  nearest_from n d [] h = inl (ground arith)
  nearest_from n d (loc ∷ rest) h =
      elim (nearest_from (nearer fl db (some n) (distance loc)) d rest h) [
        | inr later ↦ inr (inr later)
        | inl here ↦ elim (Bool-cases (fl.lt (distance loc) n)) [
          | inl e ↦ inr (inl (ground arith))
          | inr e ↦ inl (ground arith)
        ]
      ]

  nearest-IsLeast :
      (d : fl.F) (locs : List (QuestLocation fl.F))
      → nearest fl db center none locs ≡ some d
      → IsLeast d locs
  unfolding nearest
  nearest-IsLeast d [] h = absurd (ground arith)
  nearest-IsLeast d (loc ∷ rest) h =
      (nearest_from (distance loc) d rest h, nearest_below (distance loc) d rest h)

  module _ (query : ListQuestsNearbyDto fl.F) (w : World db) where
    abbrev radius : fl.F
    radius = radius_of fl db query

    -- A quest of the answer.
    abbrev pub IsNear : Near fl.F → Type 0
    IsNear n =
        (db.quest.find n.id w.quests ≡ some n.quest)
        × (is_published n.quest.status ≡ true)
        × (fl.le n.distance radius ≡ true)
        × IsLeast n.distance n.quest.locations

    abbrev IsCandidate : ℕ × Quest fl.F → Type 0
    IsCandidate e = (is_published e.1.status ≡ true) × (db.quest.find e.0 w.quests ≡ some e.1)

    push_near-IsNear :
        (id : ℕ) (q : Quest fl.F) (o : Option fl.F) (more : List (Near fl.F))
        → IsCandidate (id, q)
        → nearest fl db center none q.locations ≡ o
        → All IsNear more
        → All IsNear (push_near fl db radius id q o more)
    push_near-IsNear id q none more c e h = h
    push_near-IsNear id q (some d) more (shown, found) e h = elim (Bool-cases (fl.le d radius)) [
      | inl within ↦ rw within ((found, shown, within, nearest-IsLeast d q.locations e), h)
      | inr beyond ↦ rw beyond h
    ]

    refine-IsNear :
        (candidates : List (ℕ × Quest fl.F))
        → All IsCandidate candidates
        → All IsNear (refine fl db center radius candidates)
    unfolding refine
    refine-IsNear [] h = tt
    refine-IsNear ((id, q) ∷ rest) (c, h) =
        push_near-IsNear id q (nearest fl db center none q.locations) _ c refl
          (refine-IsNear rest h)

    length-push_near :
        (id : ℕ) (q : Quest fl.F) (o : Option fl.F) (more : List (Near fl.F))
        → length (push_near fl db radius id q o more) ≤ length more + 1
    length-push_near id q none more = omega arith
    length-push_near id q (some d) more = ground arith

    length-refine :
        (candidates : List (ℕ × Quest fl.F))
        → length (refine fl db center radius candidates) ≤ length candidates
    unfolding refine
    length-refine [] = omega arith
    length-refine ((id, q) ∷ rest) =
        let more = refine fl db center radius rest in
        omega (
          arith,
          length-push_near id q (nearest fl db center none q.locations) more,
          length-refine rest,
        )

    candidates-IsCandidate :
        (box : BoundingBox fl.F) → All IsCandidate (find_within_bounding_box fl db query box w)
    unfolding find_within_bounding_box
    candidates-IsCandidate box =
        let p = is_candidate fl db query box w in
        let found = db.quest.find_many p any_order w.quests in
        All-take IsCandidate 200 found (
          All-imp (λ e. (p e.0 e.1 ≡ true) × (db.quest.find e.0 w.quests ≡ some e.1))
            (λ e (meets, known). (ground arith, known)) found
            (db.quest.find_many_sound p any_order w.quests))

    candidates_few :
        (box : BoundingBox fl.F) → length (find_within_bounding_box fl db query box w) ≤ 200
    unfolding find_within_bounding_box
    candidates_few box = omega (
      arith,
      length-take 200 (db.quest.find_many (is_candidate fl db query box w) any_order w.quests),
    )

    list_nearby_eq :
        query.lat ≡ some center.latitude
        → query.lng ≡ some center.longitude
        → list_nearby fl db closer query w
          ≡ (ok (map (show_near fl db center w) (near_quests fl db closer query center w)), w)
    unfolding list_nearby
    list_nearby_eq lat lng = ground arith

    -- With a latitude and a longitude, the answer shows published quests, 200 at most, each at the
    -- least of the distances of its stops, which is within the radius, and the nearest first; for
    -- distances whose `<` and sorting order agree, as those of numbers do.
    pub list_nearby_lem :
        query.lat ≡ some center.latitude
        → query.lng ≡ some center.longitude
        → let found = near_quests fl db closer query center w in
          (list_nearby fl db closer query w ≡ (ok (map (show_near fl db center w) found), w))
          × All IsNear found
          × Sorted (by (λ (n : Near fl.F). n.distance) closer) found
          × (length found ≤ 200)
    unfolding near_quests
    list_nearby_lem lat lng =
        let order = by (λ (n : Near fl.F). n.distance) closer in
        let candidates = find_within_bounding_box fl db query (bounding_box fl center radius) w in
        let near = refine fl db center radius candidates in
        let box = bounding_box fl center radius in
        (
          list_nearby_eq lat lng,
          (All-sort order IsNear near).1 (refine-IsNear candidates (candidates-IsCandidate box)),
          Sorted-sort order near,
          omega (arith, length-sort order near, length-refine candidates, candidates_few box),
        )
