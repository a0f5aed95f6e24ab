-- ===== src/Tests/Reading.antt =====
-- Examples for reading quests.
use sidequest_demo_be.Common.{ℕ, ◌≤◌, ◌≡◌, refl, not, none, some, arith, length, All, ltb, leb}
use sidequest_demo_be.Common.Sorting.{ascending}
use sidequest_demo_be.Common.Text.{text_eq}
use sidequest_demo_be.Geo.{Coordinates}
use sidequest_demo_be.Effects.{ok}
use sidequest_demo_be.Pagination.{PaginationQuery, IsValid}
use sidequest_demo_be.Quests.Dto.{QuestDto, ListQuestsDto, ListQuestsNearbyDto}
use sidequest_demo_be.Quests.Reading.{get_by_id, list}
use sidequest_demo_be.Quests.Reading.Flags.{has_visited, get_by_id-flags}
use sidequest_demo_be.Quests.Reading.Pages.{Shows, list_lem}
use sidequest_demo_be.Quests.Reading.Nearby.{near_quests}
use sidequest_demo_be.Quests.Reading.Nearby.Radius.{list_nearby_lem}
use sidequest_demo_be.Tests.{fl, db, town}

get_by_id-flags_example :
    (dto : QuestDto ℕ) × (get_by_id fl db 7 (some 1) town ≡ (ok dto, town))
    × All (λ loc. loc.is_completed ≡ some (has_visited fl db 1 7 town loc.id)) dto.locations
get_by_id-flags_example = (get_by_id-flags fl db 7 1 town refl).2

abbrev first_page : PaginationQuery
first_page = record { page = 1; limit = 20 }

abbrev all_quests : ListQuestsDto
all_quests = record {
  query = first_page;
  search = none;
  status = none;
  difficulty = none;
  category_slug = none;
}

first_page-IsValid : IsValid first_page
first_page-IsValid = record {
  page_min = omega arith;
  limit_min = omega arith;
  limit_max = omega arith;
}

list_example : All (Shows fl db text_eq all_quests town) (list fl db text_eq all_quests town).items
list_example = (list_lem fl db text_eq all_quests town first_page-IsValid).0

abbrev here : Coordinates ℕ
here = record { latitude = 5; longitude = 6 }

abbrev around : ListQuestsNearbyDto ℕ
around = record {
  lat = some 5;
  lng = some 6;
  radius_m = none;
  difficulty = none;
  category_slug = none;
}

lt-le : (a b : ℕ) → ltb a b ≡ not (leb b a)
lt-le a b = ground arith

list_nearby_example : length (near_quests fl db ascending around here town) ≤ 200
list_nearby_example = (list_nearby_lem fl db ascending lt-le here around town refl refl).3
