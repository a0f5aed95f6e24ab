-- ===== src/Pagination.antt =====
-- The pages of src/common/responses/api-response.ts and src/common/dto/pagination-query.dto.ts.
pub mod Pages
use sidequest_demo_be.Common.{ℕ, ◌+◌, ◌-◌, ◌*◌, ◌/◌, ◌≤◌, max, Bool, List, ltb}

-- `PaginationQueryDto` after validation: `@Min(1) page`, `@Min(1) @Max(100) limit`.
pub record PaginationQuery : Type 0 where
  pub page : ℕ
  pub limit : ℕ

pub record IsValid (query : PaginationQuery) : Type 0 where
  pub page_min : 1 ≤ query.page
  pub limit_min : 1 ≤ query.limit
  pub limit_max : query.limit ≤ 100

-- `page` is at least 1, so the difference is exact.
unfoldable pub skip : PaginationQuery → ℕ
skip query = (query.page - 1) * query.limit

pub record PaginationMeta : Type 0 where
  pub page : ℕ
  pub limit : ℕ
  pub total : ℕ
  pub total_pages : ℕ
  pub has_next : Bool
  pub has_prev : Bool

-- `Math.ceil(total / limit)`, for a limit above 0
ceil_div : ℕ → ℕ → ℕ
ceil_div total limit = (total + (limit - 1)) / limit

unfoldable pub build_pagination_meta : ℕ → ℕ → ℕ → PaginationMeta
unfolding ceil_div
build_pagination_meta page limit total =
    let total_pages = max 1 (ceil_div total (max 1 limit)) in
    record {
      page = page;
      limit = limit;
      total = total;
      total_pages = total_pages;
      has_next = ltb page total_pages;
      has_prev = ltb 1 page;
    }

pub record PaginatedResult (T : Type 0) : Type 0 where
  pub items : List T
  pub pagination : PaginationMeta

unfoldable pub paginate : {T : Type 0} → List T → ℕ → ℕ → ℕ → PaginatedResult T
unfolding build_pagination_meta
paginate items page limit total = record {
  items = items;
  pagination = build_pagination_meta page limit total;
}
