-- ===== src/Schemas.antt =====
-- app/schemas/common.py: the arithmetic of `PaginationMeta`.
mod Tests
use unitra_service_api.Common.{ℕ, ◌+◌, ◌-◌, ◌*◌, ◌/◌, ◌≤◌, ◌<◌, ltb, if◌then◌else◌, arith}

pub record PaginationMeta : Type 0 where
  pub total : ℕ
  pub page : ℕ
  pub per_page : ℕ
  pub total_pages : ℕ

-- `PaginationMeta.create`; a negative `per_page` counts as 0.
unfoldable pub create : ℕ → ℕ → ℕ → PaginationMeta
create total page per_page = record {
  total = total;
  page = page;
  per_page = per_page;
  total_pages = if ltb 0 per_page then (total + per_page - 1) / per_page else 0;
}

-- With a positive `per_page`, the pages have room for all of the items, and for less than one page
-- more.
create_pages :
    (total page per_page : ℕ)
    → 0 < per_page
    → let pages = (create total page per_page).total_pages in
      (total ≤ pages * per_page) × (pages * per_page < total + per_page)
unfolding create
create_pages total page per_page h = ground arith
