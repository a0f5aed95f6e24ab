-- ===== src/Store/Paging.antt =====
-- One page of the rows of a table: what the `list` methods of the repositories read, in one
-- transaction with the count of the same rows.
use sidequest_demo_be.Common.Sorting.{Order, Sorted, Sorted-take, Sorted-drop}
use sidequest_demo_be.Common.{
  refl, ◌∙◌, ℕ, ◌+◌, ◌-◌, ◌<◌, min, ◌↔◌, map, length-map, ◌≡◌, Bool, true, some, List, arith,
  length, take, drop, length-take, length-drop, All, All-take, All-drop,
}
use sidequest_demo_be.Pagination.{
  PaginationQuery, PaginatedResult, IsValid, skip, paginate, build_pagination_meta,
}
use sidequest_demo_be.Pagination.Pages.{paginate_lem}
use sidequest_demo_be.Store.{Key, Table, counted, length-find_many}

module _ {K Row : Type 0} {key : Key K} (table : Table key Row) where
  -- `findMany({ where, orderBy, skip, take })`
  unfoldable pub page_rows :
      (K → Row → Bool) → Order (K × Row) → ℕ → ℕ → table.State → List (K × Row)
  page_rows p order skip n s = take n (drop skip (table.find_many p order s))

  module _ (p : K → Row → Bool) (order : Order (K × Row)) (skip n : ℕ) (s : table.State) where
    abbrev found : List (K × Row)
    found = table.find_many p order s

    pub page_rows_sound :
        All (λ e. (p e.0 e.1 ≡ true) × (table.find e.0 s ≡ some e.1)) (page_rows p order skip n s)
    unfolding page_rows
    page_rows_sound =
        let P : K × Row → Type 0 = λ e. (p e.0 e.1 ≡ true) × (table.find e.0 s ≡ some e.1) in
        All-take P n (drop skip found) (All-drop P skip found (table.find_many_sound p order s))

    pub length-page_rows :
        length (page_rows p order skip n s) ≡ min n (table.total (counted p) s - skip)
    unfolding page_rows
    length-page_rows = omega (
      arith,
      length-take n (drop skip found),
      length-drop skip found,
      length-find_many table p order s,
    )

    pub page_rows-Sorted : Sorted order (page_rows p order skip n s)
    unfolding page_rows
    page_rows-Sorted =
        Sorted-take order n (drop skip found)
          (Sorted-drop order skip found (table.find_many-Sorted p order s))

  module _ {D : Type 0} (dto : K × Row → D) (p : K → Row → Bool) (order : Order (K × Row))
      (query : PaginationQuery) where
    -- `paginate(items.map(...), page, limit, total)` over the rows read and their count
    abbrev pub shown_page : table.State → PaginatedResult D
    shown_page s =
        paginate (map dto (page_rows p order (skip query) query.limit s)) query.page query.limit
          (table.total (counted p) s)

    -- The page is full while there are rows, and a next page is announced while some are left.
    pub shown_page_size :
        (s : table.State)
        → IsValid query
        → let page = shown_page s in
          let total = table.total (counted p) s in
          (length page.items ≡ min query.limit (total - skip query))
          × (page.pagination.total ≡ total)
          × ((page.pagination.has_next ≡ true) ↔ (skip query + length page.items < total))
    unfolding paginate build_pagination_meta
    shown_page_size s valid =
        let rows = page_rows p order (skip query) query.limit s in
        let size = length-map dto rows ∙ length-page_rows p order (skip query) query.limit s in
        let next = (paginate_lem (map dto rows) query (table.total (counted p) s) valid).2 in
        let least = valid.limit_min in
        (size, refl, (λ h. omega (arith, size, next.0 h), λ h. next.1 (omega (arith, size))))
