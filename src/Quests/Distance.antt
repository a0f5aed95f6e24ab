-- ===== src/Quests/Distance.antt =====
-- `sumPathDistanceMeters` of src/modules/quests/quests.service.ts.
use sidequest_demo_be.Common.{List, [], ◌∷◌, leb, if◌then◌else◌}
use sidequest_demo_be.Geo.{Float, Coordinates, haversine_meters}
use sidequest_demo_be.Model.{QuestLocation}

module _ {F : Type 0} where
  -- `sort((a, b) => a.orderIndex - b.orderIndex)`, which keeps the order of equal items
  insert_by_order : QuestLocation F → List (QuestLocation F) → List (QuestLocation F)
  insert_by_order x [] = x ∷ []
  insert_by_order x (y ∷ ys) =
      if leb x.order_index y.order_index then x ∷ y ∷ ys else y ∷ insert_by_order x ys

  pub sort_by_order : List (QuestLocation F) → List (QuestLocation F)
  unfolding insert_by_order
  sort_by_order [] = []
  sort_by_order (x ∷ xs) = insert_by_order x (sort_by_order xs)

  abbrev pub coordinates : QuestLocation F → Coordinates F
  coordinates loc = record { latitude = loc.latitude; longitude = loc.longitude }

module _ (fl : Float) where
  path_from : fl.F → List (QuestLocation fl.F) → fl.F
  path_from sum [] = sum
  path_from sum (a ∷ []) = sum
  path_from sum (a ∷ b ∷ rest) =
      path_from (fl.add sum (haversine_meters fl (coordinates a) (coordinates b))) (b ∷ rest)

  unfoldable pub sum_path_distance_meters : List (QuestLocation fl.F) → fl.F
  unfolding path_from sort_by_order
  sum_path_distance_meters locations = path_from (fl.of_ℕ 0) (sort_by_order locations)
