-- ===== src/Paginate/Tests.antt =====
-- Runs of the pagination, and each theorem at an input that meets its hypotheses.
use slps_team.Prelude.{ℕ, ◌≡◌, refl, arith, none, some, [], ◌∷◌}
use slps_team.Prelude.Int.{pos, negsuc}
use slps_team.Paginate.{PaginateQueryParams, validate_pagination_params, limit_offset}
use slps_team.Paginate.Bounds.{offset_overflows}
use slps_team.Paginate.Pages.{first_pages, first_pages-take}

abbrev third_page : PaginateQueryParams
third_page = record { limit = pos 2; page = pos 3 }

abbrev far_page : PaginateQueryParams
far_page = record { limit = pos 100; page = pos 30_000_000 }

validate_runs :
    (validate_pagination_params third_page ≡ (pos 4, pos 2))
    × (validate_pagination_params (record { limit = negsuc 0; page = negsuc 7 }) ≡ (pos 0, pos 20))
    × (validate_pagination_params far_page ≡ (negsuc 1_294_967_395, pos 100))
unfolding validate_pagination_params
validate_runs = (refl, refl, refl)

offset_overflows_example :
    let (offset, limit) = validate_pagination_params far_page in
    limit_offset {A = ℕ} limit offset [] ≡ none
offset_overflows_example =
    offset_overflows far_page (omega arith) {A = ℕ} [] (omega arith) (omega arith)

first_pages-take_example : first_pages {A = ℕ} 2 2 (7 ∷ 8 ∷ 9 ∷ []) ≡ some (7 ∷ 8 ∷ 9 ∷ [])
first_pages-take_example =
    first_pages-take {A = ℕ} 2 2 (7 ∷ 8 ∷ 9 ∷ []) (omega arith) (omega arith) (omega arith)
