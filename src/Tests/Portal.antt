-- ===== src/Tests/Portal.antt =====
-- Examples for the partner portal.
use sidequest_demo_be.Common.{ℕ, ◌≡◌, none, some, [], ◌∷◌, arith}
use sidequest_demo_be.Common.Sorting.{any_order}
use sidequest_demo_be.Effects.{err}
use sidequest_demo_be.Businesses.{no_business, get_mine}
use sidequest_demo_be.Businesses.Windows.{seven_d, current_and_previous_window, windows_lem}
use sidequest_demo_be.Businesses.Portal.{Numeric}
use sidequest_demo_be.Businesses.Owners.{OwnsNone, portal_forbidden}
use sidequest_demo_be.Tests.{fl, db, town, walk}
use sidequest_demo_be.World.{World}

abbrev numeric : Numeric ℕ
numeric = record { avg = λ sum n. sum; percent = λ part whole. part }

ben-OwnsNone : OwnsNone fl numeric db 2 town
ben-OwnsNone id b found = ground arith

portal_forbidden_example : get_mine db 2 town ≡ (err no_business, town)
portal_forbidden_example =
    (portal_forbidden fl numeric db any_order 2 none 10 50 town ben-OwnsNone).0

windows_example :
    (current_and_previous_window seven_d 1700000000000).previous.end_exclusive
    ≡ (current_and_previous_window seven_d 1700000000000).current.start
unfolding current_and_previous_window
windows_example = (windows_lem seven_d 1700000000000 (omega arith)).2

-- The town with two quests of the business 3.
abbrev market : World db
market = record town {
  quests =
      (7, record walk { business_id = some 3 }) ∷ (8, record walk { business_id = some 3 }) ∷ [];
}
