-- ===== src/Pagination/Pages.antt =====
-- What the page numbers of src/common/responses/api-response.ts mean for the rows.
use native.Mathlib.Nat.{div-lt_iff_lt-mul}
use sidequest_demo_be.Common.{
  ℕ, zero, suc, ◌+◌, ◌-◌, ◌*◌, ◌≤◌, ◌<◌, ◌≡◌, ◌↔◌, true, List, max, arith, ltb, ltb→lt, lt→ltb,
}
use sidequest_demo_be.Pagination.{PaginationQuery, IsValid, skip, ceil_div, paginate}

-- `n` pages of `suc l` rows hold all rows exactly when `n` is at least the quotient rounded up.
ceil_div_iff : (n total l : ℕ) → (ceil_div total (suc l) ≤ n) ↔ (total ≤ n * suc l)
unfolding ceil_div
ceil_div_iff n total l =
    let bound = div-lt_iff_lt-mul {k = suc l} {x = total + (suc l - 1)} {y = suc n} (omega arith) in
    (λ h. omega (arith, bound.0 (omega arith)), λ h. omega (arith, bound.1 (omega arith)))

-- The number of pages, at a page size that is not 0.
total_pages_iff :
    (n total l : ℕ) → 1 ≤ n → (max 1 (ceil_div total (max 1 (suc l))) ≤ n) ↔ (total ≤ n * suc l)
total_pages_iff n total l h =
    let size : max 1 (suc l) ≡ suc l = omega arith in
    let holds = ceil_div_iff n total l in
    rw size (λ k. holds.0 (omega arith), λ k. omega (arith, holds.1 k))

module _ (total : ℕ) where
  abbrev pages : ℕ → ℕ
  pages limit = max 1 (ceil_div total (max 1 limit))

  pages_iff : (n limit : ℕ) → 1 ≤ n → 1 ≤ limit → (pages limit ≤ n) ↔ (total ≤ n * limit)
  pages_iff n zero p h = absurd (omega arith)
  pages_iff n (suc l) p h = total_pages_iff n total l p

  has_next_iff :
      (page limit : ℕ)
      → 1 ≤ page
      → 1 ≤ limit
      → (ltb page (pages limit) ≡ true) ↔ ((page - 1) * limit + limit < total)
  has_next_iff zero limit p h = absurd (omega arith)
  has_next_iff (suc page) zero p h = absurd (omega arith)
  has_next_iff (suc page) (suc l) p h =
      let holds = total_pages_iff (suc page) total l p in
      let before : suc page - 1 ≡ page = omega arith in
      rw before (
        λ k. beyond (λ all. omega (arith, holds.1 (omega arith), ltb→lt _ _ k)),
        λ k. lt→ltb _ _ (later (λ few. omega (arith, holds.0 few))),
      )
    where
      beyond : ¬ (total ≤ page * suc l + suc l) → page * suc l + suc l < total
      beyond no_row = omega arith

      later : ¬ (pages (suc l) ≤ suc page) → suc page < pages (suc l)
      later more = omega arith

  has_prev_iff :
      (page limit : ℕ) → 1 ≤ page → 1 ≤ limit → (ltb 1 page ≡ true) ↔ (0 < (page - 1) * limit)
  has_prev_iff zero limit p h = absurd (omega arith)
  has_prev_iff (suc zero) limit p h = ground arith
  has_prev_iff (suc (suc page)) zero p h = absurd (omega arith)
  has_prev_iff (suc (suc page)) (suc l) p h = (λ _. grind arith, λ _. ground arith)

-- For a validated query over `total` rows: the number of pages is the least one, from 1 on, whose
-- pages hold all rows; a next page is announced exactly when a row lies beyond the rows skipped
-- and the page taken, and a previous page exactly when rows were skipped.
pub paginate_lem :
    {T : Type 0} (items : List T) (query : PaginationQuery) (total : ℕ)
    → IsValid query
    → let meta = (paginate items query.page query.limit total).pagination in
      (1 ≤ meta.total_pages)
      × ((n : ℕ) → 1 ≤ n → (meta.total_pages ≤ n) ↔ (total ≤ n * query.limit))
      × ((meta.has_next ≡ true) ↔ (skip query + query.limit < total))
      × ((meta.has_prev ≡ true) ↔ (0 < skip query))
unfolding paginate skip
paginate_lem items query total valid = (
  omega arith,
  λ n h. pages_iff total n query.limit h valid.limit_min,
  has_next_iff total query.page query.limit valid.page_min valid.limit_min,
  has_prev_iff total query.page query.limit valid.page_min valid.limit_min,
)
