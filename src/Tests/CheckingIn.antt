-- ===== src/Tests/CheckingIn.antt =====
-- Examples for checking in at the stops of a quest.
use sidequest_demo_be.Common.{ℕ, ◌≡◌, refl, true, false, none, [], ◌∷◌, arith}
use sidequest_demo_be.Geo.{haversine_meters, to_radians}
use sidequest_demo_be.Effects.{ok, not_found}
use sidequest_demo_be.World.{World}
use sidequest_demo_be.Store.Rows.{except}
use sidequest_demo_be.Quests.CheckIn.{CheckInBody, check_in_location, out_of_range}
use sidequest_demo_be.Quests.CheckIn.Stops.{check_in_location_atomic}
use sidequest_demo_be.Quests.CheckIn.Visits.{check_in_location_counts, check_in_location_completes}
use sidequest_demo_be.Tests.{fl, db, tx, stop, town}

abbrev here : CheckInBody ℕ
here = record { latitude = 5; longitude = 6; accuracy_m = none }

-- Ann has been at the first stop.
abbrev half_way : World db
half_way = record town {
  check_ins =
      (
        (1, 1),
        record { quest_id = 7; latitude = 5; longitude = 6; accuracy_m = none; created_at = 3 },
      )
      ∷ [];
}

in_range : out_of_range fl db (stop 1) here ≡ false
unfolding haversine_meters to_radians
in_range = refl

in_range₂ : out_of_range fl db (stop 2) here ≡ false
unfolding haversine_meters to_radians
in_range₂ = refl

check_in_location_atomic_example : (check_in_location fl db tx 1 8 1 here 60000 town).1 ≡ town
unfolding check_in_location
check_in_location_atomic_example =
    check_in_location_atomic fl db tx 1 8 1 here 60000 town (not_found "Quest not found") refl

check_in_location_counts_example :
    (check_in_location fl db tx 1 7 1 here 60000 town).0
    ≡ ok (record { http_status = 201; step_completed = true; quest_completed = false })
unfolding except
check_in_location_counts_example =
    (check_in_location_counts fl db tx 1 7 1 here 60000 town refl refl refl in_range refl refl refl
      refl (omega arith)).0

check_in_location_completes_example :
    (check_in_location fl db tx 1 7 2 here 60000 half_way).0
    ≡ ok (record { http_status = 201; step_completed = true; quest_completed = true })
unfolding except
check_in_location_completes_example =
    (check_in_location_completes fl db tx 1 7 2 here 60000 half_way refl refl refl in_range₂ refl
      refl refl refl (omega arith)).0
