-- ===== src/Paginate.antt =====
-- domain/paginate.go, and the LIMIT and OFFSET of the queries that it feeds.
pub mod Bounds
pub mod Pages
mod Tests
use slps_team.Prelude.{ℕ, Bool, ◌||◌, List, Option, none, some, take, drop, if◌then◌else◌}
use slps_team.Prelude.Int.{ℤ, pos, negsuc, ◌-ℤ◌, ◌*ℤ◌, ltb_ℤ, wrap_int32}

-- Both fields are Go's int32.
pub record PaginateQueryParams : Type 0 where
  pub limit : ℤ
  pub page : ℤ

abbrev pub default_limit : ℤ
default_limit = pos 20

abbrev pub max_limit : ℤ
max_limit = pos 100

abbrev pub valid_page : ℤ → ℤ
valid_page page = if ltb_ℤ page (pos 1) then pos 1 else page

abbrev pub valid_limit : ℤ → ℤ
valid_limit limit = if ltb_ℤ limit (pos 1) || ltb_ℤ max_limit limit then default_limit else limit

-- `ValidatePaginationParams`: the offset and the limit. The product is an int32 and wraps around.
unfoldable pub validate_pagination_params : PaginateQueryParams → ℤ × ℤ
unfolding ◌-ℤ◌ ◌*ℤ◌ wrap_int32
validate_pagination_params params =
    let page = valid_page params.page in
    let limit = valid_limit params.limit in
    (wrap_int32 (wrap_int32 (page -ℤ pos 1) *ℤ limit), limit)

-- `LIMIT $1 OFFSET $2`: PostgreSQL refuses a statement with a negative number in either place.
unfoldable pub limit_offset {ℓ} : {A : Type ℓ} → ℤ → ℤ → List A → Option (List A)
limit_offset (pos l) (pos o) rows = some (take l (drop o rows))
limit_offset (pos l) (negsuc o) rows = none
limit_offset (negsuc l) o rows = none
