-- ===== src/Paginate/Pages.antt =====
-- The pages of a result, one after another, are the result: no row is shown twice and none is
-- left out.
use slps_team.Prelude.{
  ℕ, zero, suc, ◌+◌, ◌*◌, ◌^◌, ◌≤◌, ◌<◌, ◌≡◌, refl, ap, ◌∙◌, arith, Option, none, some, List, [],
  ◌++◌, take, drop, take-append-drop,
}
use slps_team.Prelude.Int.{pos}
use slps_team.Paginate.{PaginateQueryParams, validate_pagination_params, limit_offset}
use slps_team.Paginate.Bounds.{pages_before, page_size, offset_exact}

size_of_valid : (l : ℕ) → 1 ≤ l → l ≤ 100 → page_size (pos l) ≡ l
size_of_valid l low high = ground arith

before_valid : (n : ℕ) → pages_before (pos (suc n)) ≡ n
before_valid n = ground arith

page-lt-rows : (l n : ℕ) → 1 ≤ l → suc n * l < 2 ^ 31 → (n * l < 2 ^ 31) × (suc n < 2 ^ 31)
page-lt-rows l n low fits = grind arith

rows-suc : (l n : ℕ) → n * l + l ≡ suc n * l
rows-suc l n = omega arith

module _ {A : Type 0} where
  -- What a query with LIMIT and OFFSET returns for the parameters of a request.
  unfoldable pub page_of : PaginateQueryParams → List A → Option (List A)
  page_of p rows =
      let (offset, limit) = validate_pagination_params p in limit_offset limit offset rows

  abbrev append? : Option (List A) → Option (List A) → Option (List A)
  append? (some xs) (some ys) = some (xs ++ ys)
  append? _ _ = none

  -- The pages 1 to `n`, joined.
  abbrev pub first_pages : ℕ → ℕ → List A → Option (List A)
  first_pages l zero rows = some []
  first_pages l (suc n) rows =
      append? (first_pages l n rows) (page_of (record { limit = pos l; page = pos (suc n) }) rows)

  page_of-take-drop :
      (l n : ℕ) (rows : List A)
      → 1 ≤ l
      → l ≤ 100
      → n * l < 2 ^ 31
      → suc n < 2 ^ 31
      → page_of (record { limit = pos l; page = pos (suc n) }) rows
        ≡ some (take l (drop (n * l) rows))
  unfolding page_of limit_offset
  page_of-take-drop l n rows low high fits few =
      let p : PaginateQueryParams = record { limit = pos l; page = pos (suc n) } in
      let in_range : pages_before p.page * page_size p.limit < 2 ^ 31 =
        rw (before_valid n, size_of_valid l low high) fits in
      rw
        (
          offset_exact p (few, omega arith) in_range,
          before_valid n,
          size_of_valid l low high,
          limit_offset,
        )
        refl

  -- With a limit from 1 to 100, while `n * l` is below 2 ^ 31: the first `n` pages, joined, are the
  -- first `n * l` rows, in order.
  pub first_pages-take :
      (l n : ℕ) (rows : List A)
      → 1 ≤ l
      → l ≤ 100
      → n * l < 2 ^ 31
      → first_pages l n rows ≡ some (take (n * l) rows)
  first_pages-take l zero rows low high fits = let e : 0 * l ≡ 0 = omega arith in rw e refl
  first_pages-take l (suc n) rows low high fits =
      let (before, few) = page-lt-rows l n low fits in
      rw (first_pages-take l n rows low high before, page_of-take-drop l n rows low high before few)
        (ap some (take-append-drop (n * l) l rows ∙ ap (λ k. take k rows) (rows-suc l n)))
