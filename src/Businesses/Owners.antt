-- ===== src/Businesses/Owners.antt =====
-- Who reaches the partner portal: src/modules/businesses/businesses.service.ts.
use sidequest_demo_be.Common.{
  ℕ, ◌≡◌, refl, true, false, Option, none, some, List, [], ◌∷◌, arith, All,
}
use sidequest_demo_be.Common.Sorting.{Order}
use sidequest_demo_be.Common.Text.{Text}
use sidequest_demo_be.Geo.{Float}
use sidequest_demo_be.Effects.{ok, err}
use sidequest_demo_be.Model.{Business, Quest, refers_to}
use sidequest_demo_be.World.{Database, World}
use sidequest_demo_be.Businesses.{
  from_entity, newest, owned_by, first_row, no_business, save_business, find_by_owner_id,
  require_owned_business, get_mine, start_onboarding,
}
use sidequest_demo_be.Businesses.Windows.{BusinessMetricsPeriod}
use sidequest_demo_be.Businesses.Portal.{Numeric, TopQuestRow, get_metrics, get_top_quests}

module _ (fl : Float) (numeric : Numeric fl.F) (db : Database fl.F) where
  -- No row names the user as its owner.
  abbrev pub OwnsNone : ℕ → World db → Type 0
  OwnsNone user_id w =
      (id : ℕ) (b : Business fl.F)
      → db.business.find id w.businesses ≡ some b
      → refers_to b.owner_id user_id ≡ false

  abbrev IsOwned : ℕ → World db → ℕ × Business fl.F → Type 0
  IsOwned user_id w e =
      (owned_by user_id e.0 e.1 ≡ true) × (db.business.find e.0 w.businesses ≡ some e.1)

  first_none :
      (user_id : ℕ) (w : World db) (xs : List (ℕ × Business fl.F))
      → All (IsOwned user_id w) xs
      → OwnsNone user_id w
      → first_row xs ≡ none
  first_none user_id w [] h owns = refl
  first_none user_id w ((id, b) ∷ rest) ((owned, found), h) owns =
      absurd (ground (arith, owns id b found))

  require_none :
      (user_id : ℕ) (w : World db)
      → OwnsNone user_id w
      → require_owned_business db user_id w ≡ (err no_business, w)
  unfolding require_owned_business
  require_none user_id w owns = ground (
    arith,
    first_none user_id w (db.business.find_many (owned_by user_id) newest w.businesses)
        (db.business.find_many_sound (owned_by user_id) newest w.businesses) owns,
  )

  -- The portal is closed to a user who owns no business: each of its four routes answers 403 with
  -- the code FORBIDDEN, and writes nothing.
  pub portal_forbidden :
      (collation : Order Text) (user_id : ℕ) (period : Option BusinessMetricsPeriod) (limit now : ℕ)
      (w : World db)
      → OwnsNone user_id w
      → (get_mine db user_id w ≡ (err no_business, w))
        × (start_onboarding db user_id now w ≡ (err no_business, w))
        × (get_metrics fl numeric db user_id period now w ≡ (err no_business, w))
        × (get_top_quests fl numeric db collation user_id period limit now w ≡ (err no_business, w))
  unfolding get_mine start_onboarding get_metrics get_top_quests
  portal_forbidden collation user_id period limit now w owns =
      let e = require_none user_id w owns in
      (ground arith, ground arith, ground arith, ground arith)

  first-IsOwned :
      (user_id : ℕ) (w : World db) (id : ℕ) (b : Business fl.F) (xs : List (ℕ × Business fl.F))
      → All (IsOwned user_id w) xs
      → first_row xs ≡ some (id, b)
      → IsOwned user_id w (id, b)
  first-IsOwned user_id w id b [] h e = absurd (ground arith)
  first-IsOwned user_id w id b ((i, c) ∷ rest) ((owned, found), h) e = (ground arith, ground arith)

  -- Onboarding sets the date on a business of the user's own, and changes no other column and no
  -- other row.
  pub start_onboarding_lem :
      (user_id now id : ℕ) (b : Business fl.F) (w : World db)
      → find_by_owner_id db user_id w ≡ some (id, b)
      → let b' : Business fl.F = record b { onboarding_started_at = some now } in
        (b.owner_id ≡ some user_id)
        × (start_onboarding db user_id now w ≡ (ok (from_entity id b'), save_business db id b' w))
  unfolding start_onboarding require_owned_business from_entity
  start_onboarding_lem user_id now id b w found =
      let (owned, there) =
        first-IsOwned user_id w id b (db.business.find_many (owned_by user_id) newest w.businesses)
          (db.business.find_many_sound (owned_by user_id) newest w.businesses) found in
      (ground arith, ground arith)

  -- A row of the list is about a quest of the business.
  abbrev pub OfBusiness : ℕ → World db → TopQuestRow → Type 0
  OfBusiness business_id w r =
      (q : Quest fl.F) × (db.quest.find r.id w.quests ≡ some q)
      × (refers_to q.business_id business_id ≡ true)
