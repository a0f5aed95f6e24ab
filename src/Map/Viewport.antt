-- ===== src/Map/Viewport.antt =====
-- What the pins of a viewport show: `getPinsInBounds` of src/modules/map/map.service.ts.
use sidequest_demo_be.Common.{
  ℕ, ◌+◌, ◌≤◌, ◌≡◌, inl, inr, refl, Bool, true, false, Option, none, some, List, [], ◌∷◌, ◌++◌, map,
  take, arith, length, All, All-take, All-map, All-imp, All-append, Bool-cases, if◌then◌else◌,
  length-take, length-map, length-append, or_else,
}
use sidequest_demo_be.Common.Sorting.{any_order}
use sidequest_demo_be.Geo.{Float}
use sidequest_demo_be.Links.{TextMethods}
use sidequest_demo_be.Model.{Quest, QuestLocation, Business, QuestCategory}
use sidequest_demo_be.World.{Database, World}
use sidequest_demo_be.Map.{
  MapBoundsQueryDto, PinKind, MapPinDto, Bounds, QuestLocationPinRow, contains, is_shown,
  locations_within, rows_within, quest_rows, is_shown_business, is_located, is_verified,
  business_rows, with_category, category_row, build_quest_pin, build_business_pin, push_pin,
  business_pins, attach_distance, wants_quests, wants_businesses, pins_in,
}

module _ (fl : Float) (db : Database fl.F) (methods : TextMethods) (query : MapBoundsQueryDto fl.F)
    (b : Bounds fl.F) (w : World db) where
  -- What a pin stands for: a published quest that meets the filters, or a verified business, where
  -- the query asks for the kind.
  abbrev pub Stands : PinKind → ℕ → Type 0
  Stands PinKind.quest ref_id =
      (wants_quests fl db methods query ≡ true)
      × ((q : Quest fl.F) × (db.quest.find ref_id w.quests ≡ some q)
          × (is_shown fl db query w ref_id q ≡ true))
  Stands PinKind.business ref_id =
      (wants_businesses fl db methods query ≡ true)
      × ((row : Business fl.F) × (db.business.find ref_id w.businesses ≡ some row)
          × (is_verified row.status ≡ true))

  abbrev pub OnMap : MapPinDto fl.F → Type 0
  OnMap pin = (contains fl db b pin.latitude pin.longitude ≡ true) × Stands pin.kind pin.ref_id

  abbrev IsRow : QuestLocationPinRow fl.F → Type 0
  IsRow row =
      (contains fl db b row.location.latitude row.location.longitude ≡ true)
      × (db.quest.find row.quest_id w.quests ≡ some row.quest)
      × (is_shown fl db query w row.quest_id row.quest ≡ true)

  abbrev IsQuest : ℕ × Quest fl.F → Type 0
  IsQuest e = (is_shown fl db query w e.0 e.1 ≡ true) × (db.quest.find e.0 w.quests ≡ some e.1)

  locations_within-IsRow :
      (id : ℕ) (q : Quest fl.F) (locs : List (QuestLocation fl.F))
      → IsQuest (id, q)
      → All IsRow (locations_within fl db b id q locs)
  unfolding locations_within
  locations_within-IsRow id q [] h = tt
  locations_within-IsRow id q (loc ∷ rest) (shown, found) =
      let more = locations_within-IsRow id q rest (shown, found) in
      elim (Bool-cases (contains fl db b loc.latitude loc.longitude)) [
        | inl e ↦ rw e ((e, found, shown), more)
        | inr e ↦ rw e more
      ]

  rows_within-IsRow :
      (quests : List (ℕ × Quest fl.F)) → All IsQuest quests → All IsRow (rows_within fl db b quests)
  unfolding rows_within
  rows_within-IsRow [] h = tt
  rows_within-IsRow ((id, q) ∷ rest) (hq, h) =
      All-append IsRow (locations_within fl db b id q q.locations) _
        (locations_within-IsRow id q q.locations hq) (rows_within-IsRow rest h)

  with_category-OnMap :
      (c : Option QuestCategory) (pin : MapPinDto fl.F)
      → OnMap pin
      → OnMap (with_category fl db c pin)
  with_category-OnMap none pin h = h
  with_category-OnMap (some c) pin h = h

  quest_pin-OnMap :
      (row : QuestLocationPinRow fl.F)
      → wants_quests fl db methods query ≡ true
      → IsRow row
      → OnMap (build_quest_pin fl db w row)
  unfolding build_quest_pin
  quest_pin-OnMap row wanted (inside, found, shown) =
      with_category-OnMap (category_row fl db w row.quest.category_id) _
        (inside, (wanted, (row.quest, found, shown)))

  business_pin-OnMap :
      (id : ℕ) (row : Business fl.F) (latitude longitude : Option fl.F)
      (pins : List (MapPinDto fl.F))
      → wants_businesses fl db methods query ≡ true
      → is_located fl db b latitude longitude ≡ true
      → is_verified row.status ≡ true
      → db.business.find id w.businesses ≡ some row
      → All OnMap pins
      → All OnMap (push_pin fl db (build_business_pin fl db id row latitude longitude) pins)
  unfolding build_business_pin
  business_pin-OnMap id row none longitude pins wanted h verified found rest = rest
  business_pin-OnMap id row (some latitude) none pins wanted h verified found rest = rest
  business_pin-OnMap id row (some latitude) (some longitude) pins wanted h verified found rest =
      ((h, (wanted, (row, found, verified))), rest)

  business_pins-OnMap :
      (rows : List (ℕ × Business fl.F))
      → wants_businesses fl db methods query ≡ true
      → All
          (λ e.
            (is_shown_business fl db b e.0 e.1 ≡ true)
            × (db.business.find e.0 w.businesses ≡ some e.1))
          rows
      → All OnMap (business_pins fl db rows)
  unfolding business_pins
  business_pins-OnMap [] wanted h = tt
  business_pins-OnMap ((id, row) ∷ rest) wanted ((shown, found), h) =
      business_pin-OnMap id row row.latitude row.longitude (business_pins fl db rest) wanted
        (ground arith) (ground arith) found (business_pins-OnMap rest wanted h)

  length-business_pins :
      (rows : List (ℕ × Business fl.F)) → length (business_pins fl db rows) ≤ length rows
  unfolding business_pins
  length-business_pins [] = omega arith
  length-business_pins ((id, row) ∷ rest) =
      let pins = business_pins fl db rest in
      omega (
        arith,
        one (build_business_pin fl db id row row.latitude row.longitude) pins,
        length-business_pins rest,
      )
    where
      one :
          (o : Option (MapPinDto fl.F)) (pins : List (MapPinDto fl.F))
          → length (push_pin fl db o pins) ≤ length pins + 1
      one none pins = omega arith
      one (some pin) pins = omega arith

  abbrev limit : ℕ
  limit = or_else query.limit 200

  abbrev quests_part : Bool → List (QuestLocationPinRow fl.F)
  quests_part wanted = if wanted then quest_rows fl db query b limit w else []

  abbrev businesses_part : Bool → List (ℕ × Business fl.F)
  businesses_part wanted = if wanted then business_rows fl db b limit w else []

  quests_part_lem :
      (wanted : Bool)
      → wants_quests fl db methods query ≡ wanted
      → All OnMap (map (build_quest_pin fl db w) (quests_part wanted))
        × (length (quests_part wanted) ≤ limit)
  quests_part_lem false e = (tt, omega arith)
  quests_part_lem true e =
      let shown = db.quest.find_many (is_shown fl db query w) any_order w.quests in
      let rows = rows_within fl db b shown in
      (
        All-map OnMap (build_quest_pin fl db w) (take limit rows) (
            All-imp IsRow (λ row. quest_pin-OnMap row e) (take limit rows)
              (All-take IsRow limit rows (
                rows_within-IsRow shown
                  (db.quest.find_many_sound (is_shown fl db query w) any_order w.quests)))),
        omega (arith, length-take limit rows),
      )

  businesses_part_lem :
      (wanted : Bool)
      → wants_businesses fl db methods query ≡ wanted
      → All OnMap (business_pins fl db (businesses_part wanted))
        × (length (businesses_part wanted) ≤ limit)
  unfolding business_pins
  businesses_part_lem false e = (tt, omega arith)
  businesses_part_lem true e =
      let shown = db.business.find_many (is_shown_business fl db b) any_order w.businesses in
      let P : ℕ × Business fl.F → Type 0 = λ e.
        (is_shown_business fl db b e.0 e.1 ≡ true)
        × (db.business.find e.0 w.businesses ≡ some e.1) in
      (
        business_pins-OnMap (take limit shown) e (
            All-take P limit shown
              (db.business.find_many_sound (is_shown_business fl db b) any_order w.businesses)),
        omega (arith, length-take limit shown),
      )

  -- Every pin lies in the viewport and stands for a published quest that meets the filters or for a
  -- verified business, each only where the query asks for the kind; and there are at most as many
  -- pins of both kinds together as twice the limit.
  pub pins_in_lem :
      let pins = pins_in fl db methods query b w in
      All OnMap pins × (length pins ≤ or_else query.limit 200 + or_else query.limit 200)
  unfolding pins_in
  pins_in_lem =
      let (quests, few_quests) = quests_part_lem (wants_quests fl db methods query) refl in
      let (businesses, few_businesses) =
        businesses_part_lem (wants_businesses fl db methods query) refl in
      let rows = quests_part (wants_quests fl db methods query) in
      let partners = businesses_part (wants_businesses fl db methods query) in
      let quest_pins = map (build_quest_pin fl db w) rows in
      let pins = quest_pins ++ business_pins fl db partners in
      (
        All-map OnMap (attach_distance fl db b) pins
            (All-append OnMap quest_pins (business_pins fl db partners) quests businesses),
        omega (
          arith,
          length-map (attach_distance fl db b) pins,
          length-append quest_pins (business_pins fl db partners),
          length-map (build_quest_pin fl db w) rows,
          length-business_pins partners,
        ),
      )
