-- ===== src/Quests/Reading/Flags.antt =====
-- Which stops of a quest are shown as visited: `getById` of src/modules/quests/quests.service.ts.
use sidequest_demo_be.Common.{
  ℕ, ◌≡◌, refl, sym, ◌∙◌, Bool, true, false, Option, none, some, List, arith, any, ◌==◌, All,
  All-map, All-imp, All-every, any-map, any_none, Bool-cases, inl, inr, ap,
}
use sidequest_demo_be.Common.Sorting.{any_order, ascending, by, sort}
use sidequest_demo_be.Geo.{Float}
use sidequest_demo_be.Effects.{ok}
use sidequest_demo_be.Store.{find_many_complete}
use sidequest_demo_be.Model.{Quest, QuestLocation, QuestLocationCheckIn}
use sidequest_demo_be.World.{Database, World}
use sidequest_demo_be.Quests.Dto.{QuestDto}
use sidequest_demo_be.Quests.Reading.{
  to_dto, location_dto, check_in_of, load_checked_location_ids, get_by_id,
}

module _ (fl : Float) (db : Database fl.F) where
  abbrev Visit : Type 0
  Visit = (ℕ × ℕ) × QuestLocationCheckIn fl.F

  abbrev is_for : ℕ → Option (QuestLocationCheckIn fl.F) → Bool
  is_for quest_id none = false
  is_for quest_id (some c) = c.quest_id == quest_id

  -- The user's check-in at the place, where it belongs to the quest.
  abbrev pub has_visited : ℕ → ℕ → World db → ℕ → Bool
  has_visited user_id quest_id w location_id =
      is_for quest_id (db.quest_location_check_in.find (user_id, location_id) w.check_ins)

  module _ (user_id quest_id location_id : ℕ) (w : World db) where
    abbrev rows : List Visit
    rows =
        db.quest_location_check_in.find_many (check_in_of fl db user_id quest_id) any_order
          w.check_ins

    abbrev is_there : Visit → Bool
    is_there e = e.0.1 == location_id

    -- a row at another place, where there is none at this one
    elsewhere :
        has_visited user_id quest_id w location_id ≡ false
        → (e : Visit)
        → (check_in_of fl db user_id quest_id e.0 e.1 ≡ true)
          × (db.quest_location_check_in.find e.0 w.check_ins ≡ some e.1)
        → is_there e ≡ false
    elsewhere missing ((u, l), c) (meets, found) = ground arith

    there :
        has_visited user_id quest_id w location_id ≡ true
        → (row : Option (QuestLocationCheckIn fl.F))
        → db.quest_location_check_in.find (user_id, location_id) w.check_ins ≡ row
        → any is_there rows ≡ has_visited user_id quest_id w location_id
    there e none found = ground arith
    there e (some c) found =
        find_many_complete db.quest_location_check_in (check_in_of fl db user_id quest_id) any_order
          is_there (user_id, location_id) c w.check_ins found (ground arith) (ground arith)
        ∙ sym e

    is_checked :
        any (λ x. x == location_id) (load_checked_location_ids fl db user_id quest_id w)
        ≡ has_visited user_id quest_id w location_id
    unfolding load_checked_location_ids
    is_checked =
        let p = check_in_of fl db user_id quest_id in
        let s = w.check_ins in
        any-map (λ (e : Visit). e.0.1) (λ x. x == location_id) rows
        ∙ elim (Bool-cases (has_visited user_id quest_id w location_id)) [
          | inl e ↦ there e (db.quest_location_check_in.find (user_id, location_id) s) refl
          | inr e ↦
              any_none is_there rows (
                All-imp
                  (λ v. (p v.0 v.1 ≡ true) × (db.quest_location_check_in.find v.0 s ≡ some v.1))
                  (elsewhere e) rows (db.quest_location_check_in.find_many_sound p any_order s))
              ∙ sym e
        ]

  -- A viewer of a quest is shown each stop as visited exactly where the viewer's own check-in at it
  -- belongs to the quest; without a viewer no stop is marked either way.
  pub get_by_id-flags :
      (id viewer : ℕ) (w : World db) {q : Quest fl.F}
      → db.quest.find id w.quests ≡ some q
      → (get_by_id fl db id none w ≡ (ok (to_dto fl db w none none id q), w))
        × All (λ loc. loc.is_completed ≡ none) (to_dto fl db w none none id q).locations
        × ((dto : QuestDto fl.F) × (get_by_id fl db id (some viewer) w ≡ (ok dto, w))
            × All (λ loc. loc.is_completed ≡ some (has_visited viewer id w loc.id)) dto.locations)
  unfolding get_by_id to_dto
  get_by_id-flags id viewer w {q} found =
      let checked = load_checked_location_ids fl db viewer id w in
      let locations =
        sort (by (λ (loc : QuestLocation fl.F). loc.order_index) ascending) q.locations in
      (
        ground arith,
        All-map (λ loc. loc.is_completed ≡ none) (location_dto fl db none none) locations
            (All-every (λ loc. (location_dto fl db none none loc).is_completed ≡ none) (λ loc. refl)
              locations),
        (
          to_dto fl db w none (some checked) id q,
          ground arith,
          All-map (λ loc. loc.is_completed ≡ some (has_visited viewer id w loc.id))
              (location_dto fl db none (some checked)) locations
              (All-every
                (λ loc.
                  (location_dto fl db none (some checked) loc).is_completed
                  ≡ some (has_visited viewer id w loc.id))
                (λ loc. ap some (is_checked viewer id loc.id w)) locations),
        ),
      )
