-- ===== src/Paginate/Bounds.antt =====
-- The ranges of the offset and the limit, and where the offset overflows.
use slps_team.Prelude.{ℕ, ◌-◌, ◌*◌, ◌^◌, ◌≤◌, ◌<◌, ◌≡◌, refl, ap, ◌∙◌, arith, none, List}
use slps_team.Prelude.Int.{
  ℤ, pos, negsuc, pos_part, ◌≤ℤ◌, IsInt32, ◌-ℤ◌, ◌*ℤ◌, wrap_int32, wrap_int32_fits,
}
use slps_team.Paginate.{
  PaginateQueryParams, valid_page, valid_limit, validate_pagination_params, limit_offset,
}

-- The number of whole pages in front of the one asked for: a page below 1 is the first.
abbrev pub pages_before : ℤ → ℕ
pages_before page = pos_part (valid_page page) - 1

abbrev pub page_size : ℤ → ℕ
page_size limit = pos_part (valid_limit limit)

-- The limit is always between 1 and 100, whatever the client sends.
limit_in_range :
    (p : PaginateQueryParams)
    → let (_, limit) = validate_pagination_params p in (pos 1 ≤ℤ limit) × (limit ≤ℤ pos 100)
unfolding validate_pagination_params
limit_in_range p = ground arith

page_size_bounds : (limit : ℤ) → (1 ≤ page_size limit) × (page_size limit ≤ 100)
page_size_bounds limit = ground arith

valid_limit-pos : (limit : ℤ) → valid_limit limit ≡ pos (page_size limit)
valid_limit-pos (pos n) = ground arith
valid_limit-pos (negsuc n) = ground arith

wrap_minus_one :
    (page : ℤ) → IsInt32 page → wrap_int32 (valid_page page -ℤ pos 1) ≡ pos (pages_before page)
unfolding ◌-ℤ◌ wrap_int32
wrap_minus_one (pos n) h = ground arith
wrap_minus_one (negsuc n) h = ground arith

pos-* : (a b : ℕ) → pos a *ℤ pos b ≡ pos (a * b)
unfolding ◌*ℤ◌
pos-* a b = ground arith

validate-wrap :
    (p : PaginateQueryParams)
    → IsInt32 p.page
    → validate_pagination_params p
      ≡ (wrap_int32 (pos (pages_before p.page * page_size p.limit)), pos (page_size p.limit))
unfolding validate_pagination_params
validate-wrap p h = rw (wrap_minus_one p.page h, valid_limit-pos p.limit, pos-*) refl

wrap_negative : (n : ℕ) → 2 ^ 31 ≤ n → n < 2 ^ 32 → wrap_int32 (pos n) ≡ negsuc (2 ^ 32 - 1 - n)
unfolding wrap_int32
wrap_negative n large small = ground arith

module _ (p : PaginateQueryParams) (h : IsInt32 p.page) where
  -- For an int32 page, while the product is below 2 ^ 31: the offset is the number of rows on the
  -- pages before, and the limit is the page size.
  pub offset_exact :
      pages_before p.page * page_size p.limit < 2 ^ 31
      → validate_pagination_params p
        ≡ (pos (pages_before p.page * page_size p.limit), pos (page_size p.limit))
  offset_exact fits =
      validate-wrap p h
      ∙ ap (λ (z : ℤ). (z, pos (page_size p.limit))) (wrap_int32_fits _ (fits, omega arith))

  -- The first 21474837 pages never overflow.
  pub offset_fits :
      pages_before p.page ≤ 21474836 → pages_before p.page * page_size p.limit < 2 ^ 31
  offset_fits few = grind (arith, page_size_bounds p.limit)

  -- For an int32 page, while the product is from 2 ^ 31 up to below 2 ^ 32: the offset comes out
  -- negative, and the database refuses the query.
  pub offset_overflows :
      {A : Type 0} (rows : List A)
      → 2 ^ 31 ≤ pages_before p.page * page_size p.limit
      → pages_before p.page * page_size p.limit < 2 ^ 32
      → let (offset, limit) = validate_pagination_params p in limit_offset limit offset rows ≡ none
  unfolding limit_offset
  offset_overflows rows large small =
      rw (validate-wrap p h, wrap_negative _ large small, limit_offset) refl
