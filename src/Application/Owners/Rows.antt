-- ===== src/Application/Owners/Rows.antt =====
-- The rows of applications that have an owner, and what each statement does to them.
use slps_team.Prelude.{
  ℕ, String, arith, ◌≡◌, refl, Bool, true, false, not, all, map, List, [], ◌∷◌, Option, none, some,
}
use slps_team.Application.{ApplicationStatus, ApplicationRow, TempSessionInfo, ApplicationTables}
use slps_team.Application.Store.{
  Draft, with_text, update_text, with_status, update_status, insert_application, merged, merge_rows,
}
use slps_team.Application.Http.{both_nil, is_empty, with_new_id}

abbrev pub has_owner : ApplicationRow → Bool
has_owner r = not (both_nil r.application.author_id r.temp_session_id)

abbrev pub IsOwned : ApplicationTables → Type 0
IsOwned t = all has_owner t.applications ≡ true

-- A change of rows that leaves them an owner.
module _ (f : ApplicationRow → ApplicationRow)
    (owned : (r : ApplicationRow) → has_owner r ≡ true → has_owner (f r) ≡ true) where
  owned-map : (rs : List ApplicationRow) → all has_owner rs ≡ true → all has_owner (map f rs) ≡ true
  owned-map [] e = refl
  owned-map (r ∷ rs) e = ground (arith, e, owned r, owned-map rs)

text_owned :
    (id : ℕ) (text : String) (now : ℕ) (r : ApplicationRow)
    → has_owner r ≡ true
    → has_owner (with_text id text now r) ≡ true
text_owned id text now r e = ground (arith, e)

status_owned :
    (id : ℕ) (s : ApplicationStatus) (now : ℕ) (r : ApplicationRow)
    → has_owner r ≡ true
    → has_owner (with_status id s now r) ≡ true
status_owned id s now r e = ground (arith, e)

merged_owned :
    (info : TempSessionInfo) (u : ℕ) (now : ℕ) (r : ApplicationRow)
    → info.user_id ≡ some u
    → has_owner r ≡ true
    → has_owner (merged info now r) ≡ true
merged_owned info u now r known e = ground (arith, known, e)

new_id-owned :
    (new_id : String) (info : TempSessionInfo) → is_empty (with_new_id new_id info) ≡ false
new_id-owned new_id info = by_owner info.user_id info.temp_session_id refl refl
  where
    by_owner :
        (u : Option ℕ) (s : Option String)
        → info.user_id ≡ u
        → info.temp_session_id ≡ s
        → is_empty (with_new_id new_id info) ≡ false
    by_owner none none e f = ground (arith, e, f)
    by_owner none (some s) e f = ground (arith, e, f)
    by_owner (some u) none e f = ground (arith, e, f)
    by_owner (some u) (some s) e f = ground (arith, e, f)

pub create-IsOwned :
    (new_id : String) (info : TempSessionInfo) (draft : Draft) (now : ℕ) (t : ApplicationTables)
    (n : ℕ) (t' : ApplicationTables)
    → IsOwned t
    → insert_application (with_new_id new_id info) draft now t ≡ some (n, t')
    → IsOwned t'
create-IsOwned new_id info draft now t n t' h e = ground (arith, h, e, new_id-owned new_id info)

pub text-IsOwned :
    (id : ℕ) (text : String) (now : ℕ) (t : ApplicationTables) (a : Unit {0})
    (t' : ApplicationTables)
    → IsOwned t
    → update_text id text now t ≡ some (a, t')
    → IsOwned t'
text-IsOwned id text now t a t' h e =
    ground (arith, e, owned-map (with_text id text now) (text_owned id text now) t.applications h)

pub status-IsOwned :
    (id : ℕ) (s : Option ApplicationStatus) (now : ℕ) (t : ApplicationTables) (a : Unit {0})
    (t' : ApplicationTables)
    → IsOwned t
    → update_status id s now t ≡ some (a, t')
    → IsOwned t'
status-IsOwned id none now t a t' h e = absurd (ground (arith, e))
status-IsOwned id (some s) now t a t' h e =
    ground (arith, e, owned-map (with_status id s now) (status_owned id s now) t.applications h)

pub merge-IsOwned :
    (info : TempSessionInfo) (u : ℕ) (now : ℕ) (t : ApplicationTables) (a : Unit {0})
    (t' : ApplicationTables)
    → info.user_id ≡ some u
    → IsOwned t
    → merge_rows info now t ≡ some (a, t')
    → IsOwned t'
merge-IsOwned info u now t a t' known h e =
    ground (
      arith,
      e,
      owned-map (merged info now) (λ r. merged_owned info u now r known) t.applications h,
    )
