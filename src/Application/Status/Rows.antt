-- ===== src/Application/Status/Rows.antt =====
-- The status of the rows of applications, and what a change of rows does to it.
use slps_team.Prelude.{
  ℕ, String, ap, arith, ◌≡◌, refl, Bool, true, false, ◌&&◌, any, map, List, [], ◌∷◌, some,
  Bool-cases, inl, inr,
}
use slps_team.Prelude.Strings.{equals, equals_sound}
use slps_team.Application.{
  ApplicationStatus, read_status, ApplicationRow, TempSessionInfo, ApplicationTables,
}
use slps_team.Application.Store.{has_id, with_text, with_status, merged}

abbrev pub is_closed : ApplicationStatus → Bool
is_closed ApplicationStatus.closed = true
is_closed s = false

abbrev pub is_in_work : ApplicationStatus → Bool
is_in_work ApplicationStatus.in_work = true
is_in_work s = false

-- A row with this id is closed; a row with this id is in work.
abbrev pub closes : ℕ → ApplicationRow → Bool
closes i r = has_id i r && is_closed r.application.status

abbrev pub works : ℕ → ApplicationRow → Bool
works i r = has_id i r && is_in_work r.application.status

-- Application `i` is closed, and application `j` is not in work.
pub record IsSettled (i j : ℕ) (t : ApplicationTables) : Type 0 where
  pub closed : any (closes i) t.applications ≡ true
  pub idle : any (works j) t.applications ≡ false

-- A change of rows that leaves ids and statuses alone, but that it may close one.
pub record IsGentle (f : ApplicationRow → ApplicationRow) : Type 0 where
  closing : (i : ℕ) (r : ApplicationRow) → closes i r ≡ true → closes i (f r) ≡ true
  idling : (j : ℕ) (r : ApplicationRow) → works j r ≡ false → works j (f r) ≡ false

pub text-IsGentle : (id : ℕ) (text : String) (now : ℕ) → IsGentle (with_text id text now)
text-IsGentle id text now = record {
  closing = λ i r e. ground (arith, e);
  idling = λ j r e. ground (arith, e);
}

pub closed-IsGentle : (id now : ℕ) → IsGentle (with_status id ApplicationStatus.closed now)
closed-IsGentle id now = record {
  closing = λ i r e. ground (arith, e);
  idling = λ j r e. ground (arith, e);
}

pub merged-IsGentle : (info : TempSessionInfo) (now : ℕ) → IsGentle (merged info now)
merged-IsGentle info now = record {
  closing = λ i r e. ground (arith, e);
  idling = λ j r e. ground (arith, e);
}

module _ (f : ApplicationRow → ApplicationRow) (g : IsGentle f) where
  pub closes-map :
      (i : ℕ) (rs : List ApplicationRow)
      → any (closes i) rs ≡ true
      → any (closes i) (map f rs) ≡ true
  closes-map i [] e = absurd (cc)
  closes-map i (r ∷ rs) e = elim (Bool-cases (closes i r)) [
    | inl it ↦ ground (arith, g.closing i r it)
    | inr other ↦ ground (arith, e, other, closes-map i rs)
  ]

  pub works-map :
      (j : ℕ) (rs : List ApplicationRow)
      → any (works j) rs ≡ false
      → any (works j) (map f rs) ≡ false
  works-map j [] e = refl
  works-map j (r ∷ rs) e = ground (arith, e, g.idling j r, works-map j rs)

-- The only text that all may set is that of the closed status.
pub read_closed :
    (s : String) (a : ApplicationStatus)
    → equals s "closed" ≡ true
    → read_status s ≡ some a
    → a ≡ ApplicationStatus.closed
unfolding read_status equals
read_closed s a e r =
    let it = equals_sound s "closed" e in
    let same : read_status s ≡ some ApplicationStatus.closed = ap read_status it in cc
