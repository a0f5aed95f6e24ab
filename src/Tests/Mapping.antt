-- ===== src/Tests/Mapping.antt =====
-- Examples for the map.
use sidequest_demo_be.Common.{ℕ, none, All}
use sidequest_demo_be.Map.{MapBoundsQueryDto, Bounds, pins_in}
use sidequest_demo_be.Map.Viewport.{OnMap, pins_in_lem}
use sidequest_demo_be.Tests.{fl, db, methods, town}

abbrev everything : MapBoundsQueryDto ℕ
everything = record {
  south = none;
  north = none;
  west = none;
  east = none;
  limit = none;
  category_slug = none;
  difficulty = none;
  kinds = none;
}

abbrev old_town : Bounds ℕ
old_town = record { south = 0; north = 10; west = 0; east = 10 }

pins_in_example :
    All
      (OnMap fl db methods everything old_town town)
      (pins_in fl db methods everything old_town town)
pins_in_example = (pins_in_lem fl db methods everything old_town town).0
