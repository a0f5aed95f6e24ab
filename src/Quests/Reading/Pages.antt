-- ===== src/Quests/Reading/Pages.antt =====
-- What a page of quests holds: `list` of src/modules/quests/quests.service.ts.
use sidequest_demo_be.Common.{
  ℕ, ◌+◌, ◌-◌, ◌<◌, min, ◌≡◌, ◌↔◌, refl, Bool, true, none, some, length, All, All-map, All-imp,
}
use sidequest_demo_be.Common.Sorting.{Order, Sorted, Sorted-map, ascending, by, reversed}
use sidequest_demo_be.Common.Text.{Text}
use sidequest_demo_be.Geo.{Float}
use sidequest_demo_be.Pagination.{IsValid, skip, paginate, build_pagination_meta}
use sidequest_demo_be.Store.{counted}
use sidequest_demo_be.Store.Paging.{page_rows, page_rows_sound, page_rows-Sorted, shown_page_size}
use sidequest_demo_be.Model.{Quest}
use sidequest_demo_be.World.{Database, World}
use sidequest_demo_be.Quests.Dto.{QuestDto, ListQuestsDto}
use sidequest_demo_be.Quests.Reading.{to_dto, meets, newest, list}

module _ (fl : Float) (db : Database fl.F) (ilike : Text → Text → Bool) where
  -- An entry of a list is the view of a quest that meets the query.
  abbrev pub Shows : ListQuestsDto → World db → QuestDto fl.F → Type 0
  Shows query w dto =
      (q : Quest fl.F) × (db.quest.find dto.id w.quests ≡ some q)
      × (meets fl db ilike query w dto.id q ≡ true)
      × (dto ≡ to_dto fl db w none none dto.id q)

  abbrev pub newest_dto : Order (QuestDto fl.F)
  newest_dto = reversed (by (λ dto. dto.created_at) ascending)

  -- A page of quests shows only quests that meet the query, the newest first, and as many as there
  -- are beyond the rows that it skips, up to its limit; its total is their number, and a next page
  -- is announced exactly when some are left after it.
  pub list_lem :
      (query : ListQuestsDto) (w : World db)
      → IsValid query.query
      → let page = list fl db ilike query w in
        let total = db.quest.total (counted (meets fl db ilike query w)) w.quests in
        All (Shows query w) page.items
        × Sorted newest_dto page.items
        × (length page.items ≡ min query.query.limit (total - skip query.query))
        × (page.pagination.total ≡ total)
        × ((page.pagination.has_next ≡ true) ↔ (skip query.query + length page.items < total))
  unfolding list to_dto paginate build_pagination_meta
  list_lem query w valid =
      let p = meets fl db ilike query w in
      let order = newest fl db in
      let show : ℕ × Quest fl.F → QuestDto fl.F = λ e. to_dto fl db w none none e.0 e.1 in
      let rows = page_rows db.quest p order (skip query.query) query.query.limit w.quests in
      let size = shown_page_size db.quest show p order query.query w.quests valid in
      (
        All-map (Shows query w) show rows (
            All-imp (λ e. (p e.0 e.1 ≡ true) × (db.quest.find e.0 w.quests ≡ some e.1))
              (λ e (meets_it, found). (e.1, found, meets_it, refl)) rows
              (page_rows_sound db.quest p order (skip query.query) query.query.limit w.quests)),
        Sorted-map show newest_dto rows
            (page_rows-Sorted db.quest p order (skip query.query) query.query.limit w.quests),
        size.0,
        size.1,
        size.2,
      )
