-- ===== src/Friend/Lifecycle/Rows.antt =====
-- The row of a pair under each statement, and how a run shows what a verdict asks for.
use slps_team.Prelude.{
  ℕ, suc, ◌≡◌, ◌≢◌, refl, sym, ap, ◌∙◌, arith, true, false, ◌==◌, map, keep, not, tally, Option,
  none, some, Bool-cases, inl, inr, if◌then◌else◌,
}
use slps_team.Errors.{Sentinel, sentinel}
use slps_team.Flow.{Result, ok, err}
use slps_team.Sql.{Db}
use slps_team.Friend.{FriendshipStatus, Tables, Row}
use slps_team.Friend.Table.{select_row, upsert, assign_at, has_key}
use slps_team.Friend.Store.{Method, ensure_user_order}
use slps_team.Friend.Laws.{
  Standing, standing_at, standing_of, standing-select, standing-upsert, standing-assign,
  standing-delete, tally-standing, delete_nothing,
}
use slps_team.Friend.Lifecycle.{standing, same_pair, done, refused, Implements}

abbrev pub ticked : Db Tables → Db Tables
ticked db = record db { statements = suc db.statements }

abbrev pub status_of : Option Row → FriendshipStatus
status_of none = FriendshipStatus.unset
status_of (some r) = r.status

-- The row of a pair, whichever is named first.
abbrev pub row_of : ℕ → ℕ → Tables → Option Row
row_of a b t = let (f, s) = ensure_user_order a b in select_row f s t.rows

pub standing-row_of : (a b : ℕ) (t : Tables) → standing a b t ≡ standing_of (row_of a b t)
unfolding standing
standing-row_of a b t = let (f, s) = ensure_user_order a b in sym (standing-select f s t.rows)

pub eq_false : {a b : ℕ} → a ≢ b → a == b ≡ false
eq_false ne = ground arith

module _ (a b : ℕ) (db : Db Tables) (m : Method (Unit {0})) where
  pub Implements-done :
      (db' : Db Tables) (z : Standing)
      → m db ≡ (ok tt, db')
      → ((x y : ℕ)
          → standing x y db'.tables ≡ (if same_pair a b x y then z else standing x y db.tables))
      → Implements (done z) a b m db
  Implements-done db' z run moves =
      (ap (λ (r : Result (Unit {0}) × Db Tables). r.0) run, λ x y. rw run (moves x y))

  pub Implements-refused :
      (db' : Db Tables) (t : Sentinel)
      → m db ≡ (err (sentinel t), db')
      → db'.tables ≡ db.tables
      → Implements (refused t) a b m db
  Implements-refused db' t run kept =
      (ap (λ (r : Result (Unit {0}) × Db Tables). r.0) run, rw run kept)

module _ (a b : ℕ) (t : Tables) (x y : ℕ) where
  pub standing_after_upsert :
      (st : FriendshipStatus) (now : ℕ)
      → let (f, s) = ensure_user_order a b in
        standing x y (record t { rows = upsert f s a st now t.rows })
        ≡ (if same_pair a b x y then some (st, a) else standing x y t)
  unfolding standing same_pair
  standing_after_upsert st now = standing-upsert _ _ a st now _ _ t.rows

  pub standing_after_assign :
      (st : FriendshipStatus) (now : ℕ)
      → let (f, s) = ensure_user_order a b in
        standing x y (record t { rows = map (assign_at f s a st now) t.rows }) ≡ (
          if same_pair a b x y
          then elim (standing x y t) [ none ↦ none | some _ ↦ some (st, a) ]
          else standing x y t)
  unfolding standing same_pair
  standing_after_assign st now = standing-assign _ _ a st now _ _ t.rows

  pub standing_after_delete :
      let (f, s) = ensure_user_order a b in
      standing x y (record t { rows = keep (λ r. not (has_key f s r)) t.rows })
      ≡ (if same_pair a b x y then none else standing x y t)
  unfolding standing same_pair
  standing_after_delete = standing-delete _ _ _ _ t.rows

  -- One pair has one standing.
  pub standing_same : same_pair a b x y ≡ true → standing x y t ≡ standing a b t
  unfolding standing same_pair
  standing_same h = ground arith

pub tally-row_of-none :
    (a b : ℕ) (t : Tables)
    → row_of a b t ≡ none
    → let (f, s) = ensure_user_order a b in
      (tally (has_key f s) t.rows == 0 ≡ true) × (keep (λ r. not (has_key f s r)) t.rows ≡ t.rows)
tally-row_of-none a b t e =
    let (f, s) = ensure_user_order a b in
    let vacant : standing_at f s t.rows ≡ none = rw (← standing-select f s t.rows, e) refl in
    (rw (tally-standing f s t.rows, vacant) refl, delete_nothing f s t.rows vacant)

pub tally-row_of :
    (a b : ℕ) (t : Tables) {r : Row}
    → row_of a b t ≡ some r
    → let (f, s) = ensure_user_order a b in tally (has_key f s) t.rows == 0 ≡ false
tally-row_of a b t e =
    let (f, s) = ensure_user_order a b in
    rw (tally-standing f s t.rows, ← standing-select f s t.rows, e) refl

pub standing_after_answer :
    (u friend : ℕ) (t : Tables) (st : FriendshipStatus) (now : ℕ) {r : Row}
    → row_of u friend t ≡ some r
    → (x y : ℕ)
    → let (f, s) = ensure_user_order u friend in
      standing x y (record t { rows = map (assign_at f s u st now) t.rows })
      ≡ (if same_pair u friend x y then some (st, u) else standing x y t)
standing_after_answer u friend t st now e x y = elim (Bool-cases (same_pair u friend x y)) [
  | inl p ↦
      standing_after_assign u friend t x y st now
      ∙ rw (p, standing_same u friend t x y p, standing-row_of u friend t, e) refl
  | inr p ↦ standing_after_assign u friend t x y st now ∙ rw p refl
]
