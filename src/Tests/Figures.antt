-- ===== src/Tests/Figures.antt =====
-- Examples for the public figures and for those of a user.
use sidequest_demo_be.Common.{ℕ, ◌≡◌, none, some, List, [], ◌∷◌, arith}
use sidequest_demo_be.Common.Sorting.{any_order, sum_of}
use sidequest_demo_be.Links.{SqlText}
use sidequest_demo_be.Model.{QuestCategory, completed}
use sidequest_demo_be.Store.Rows.{except, unless}
use sidequest_demo_be.World.{World}
use sidequest_demo_be.Users.Stats.{by_category}
use sidequest_demo_be.Users.Stats.Counts.{is_slug, by_category_lem}
use sidequest_demo_be.Stats.Freshness.{AllRecent, serve, serve_refines}
use sidequest_demo_be.Tests.{fl, db, methods, town, walk, row}

abbrev plain : SqlText
plain = record { lower = λ s. s; btrim = λ s. s }

-- Two requests a second apart, between which all users were lost.
abbrev two_requests : List (ℕ × World db)
two_requests = (1000, town) ∷ (2000, record town { users = [] }) ∷ []

serve_refines_example :
    AllRecent fl db methods plain any_order any_order [] two_requests
      (serve fl db methods plain any_order any_order none two_requests)
serve_refines_example =
    serve_refines fl db methods plain any_order any_order two_requests (tt, ((omega arith, tt), tt))

-- Two quests in the category of parks, both completed by Ann.
abbrev parks : QuestCategory
parks = record {
  slug = "parks";
  name = "Parks";
  description = none;
  icon_url = none;
  cover_image_url = none;
  color_hex = none;
}

abbrev green : World db
green = record town {
  categories = (5, parks) ∷ [];
  quests =
      (7, record walk { category_id = some 5 }) ∷ (8, record walk { category_id = some 5 }) ∷ [];
  completions =
      ((1, 7), record row { status = completed })
      ∷ ((1, 8), record row { status = completed })
      ∷ [];
}

by_category_example : sum_of (is_slug "parks") (by_category fl db 1 green) ≡ 1
unfolding except unless
by_category_example = (by_category_lem "parks" fl db green 1).1
