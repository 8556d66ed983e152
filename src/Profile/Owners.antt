-- ===== src/Profile/Owners.antt =====
-- Histories of requests that change profiles, in any environment: whose profile changes.
pub mod Requests
use slps_team.Prelude.{
  ℕ, ap, ◌∙◌, arith, ◌≡◌, refl, true, not, ◌==◌, all, keep, map, if◌then◌else◌, List, [], ◌∷◌,
  Option, none, some,
}
use slps_team.Errors.{Sentinel}
use slps_team.Errors.Status.{GrpcStatus}
use slps_team.Flow.{Result, ok, err}
use slps_team.Flow.Keeps.{
  Keeps-bind, Keeps-pure, Keeps-raise, Keeps-return_if, Keeps-or_return, Keeps-lift,
}
use slps_team.Grpc.{reply_of}
use slps_team.Sql.Keeps.{
  Preserves, Preserves-exec, Preserves-query, Preserves-begin, Preserves-commit_tx,
  Preserves-in_transaction,
}
use slps_team.Uploads.{File, Names}
use slps_team.Backend.Keeps.{Held, Held-on_db, Held-on_disk}
use slps_team.Prelude.{String}
use slps_team.Profile.{ProfileRow, ProfileTables}
use slps_team.Profile.Table.{
  is_of, update_profiles, with_profile, with_avatar, with_header, select_profile,
}
use slps_team.Profile.Store.{
  update_profile_row, update_avatar_row, update_header_row, row_or_not_found, get_profile_row,
  get_avatar, get_header, undone, path_or_error, delete_avatar_row,
}
use slps_team.Profile.Service.{
  Clients, World, Call, first_path, replace_file, store_avatar, store_avatar_if_any, update_avatar,
  update_header, update_profile, delete_avatar,
}
use slps_team.Profile.Grpc.{serve_update_header}
use slps_team.Profile.Owners.Requests.{
  Request, Asked, updates, avatars, headers, avatar_deletes, update_avatar-Held, update_header-Held,
  delete_avatar-Held, store_if_any-Held, perform, run_profiles, IsKeptBy,
}

abbrev pub IsUntouched : ℕ → List ProfileRow → ProfileTables → Type 0
IsUntouched o kept t = keep (is_of o) t.profiles ≡ kept

module _ (o u : ℕ) (other : not (u == o) ≡ true) (kept : List ProfileRow) where
  -- A change that leaves the user of a row.
  rows_apart :
      (change : ProfileRow → ProfileRow)
      → ((p : ProfileRow) → (change p).user_id ≡ p.user_id)
      → (ps : List ProfileRow)
      → keep (is_of o) (map (λ p. if is_of u p then change p else p) ps) ≡ keep (is_of o) ps
  rows_apart change same [] = refl
  rows_apart change same (p ∷ ps) = ground (arith, other, same p, rows_apart change same ps)

  untouched :
      (change : ProfileRow → ProfileRow)
      → ((p : ProfileRow) → (change p).user_id ≡ p.user_id)
      → IsKeptBy (IsUntouched o kept) u change
  unfolding update_profiles
  untouched change same t n t' h e = ground (arith, e, h, rows_apart change same t.profiles)

  perform-Held :
      (c : Clients) (names : Names) (r : Request) → Held (IsUntouched o kept) (perform c names u r)
  unfolding perform update_profile update_profile_row
  perform-Held c names (updates p files) =
      let P = IsUntouched o kept in
      Keeps-bind _ _ (Keeps-return_if (not (c.validate_struct p)) Sentinel.invalid_input) λ _.
        Keeps-bind _ _
          (store_if_any-Held P names u (λ path. untouched (with_avatar path) λ q. refl) files)
          λ _.
            Keeps-bind _ _
              (Keeps-or_return Sentinel.db _ (
                Held-on_db P _ (
                  Keeps-bind _ _
                    (Preserves-exec P _
                      λ now t n t' h e. untouched (with_profile p) (λ q. refl) t n t' h e)
                    λ _. Keeps-pure _)))
              λ _. Keeps-or_return Sentinel.db _ (Keeps-lift _)
  perform-Held c names (avatars files) =
      update_avatar-Held (IsUntouched o kept) names u
        (λ path. untouched (with_avatar path) λ q. refl) files
  perform-Held c names (headers files) =
      update_header-Held (IsUntouched o kept) names u files
        (λ path. untouched (with_header path) λ q. refl)
  perform-Held c names avatar_deletes =
      delete_avatar-Held (IsUntouched o kept) names u
        (λ path. untouched (with_avatar path) λ q. refl)

-- Whatever is asked and whatever fails: if none of the requests is of the user `o`, the row of `o`'s
-- profile is as it was.
pub run_profiles-IsUntouched :
    (c : Clients) (names : Names) (o : ℕ) (rs : List Asked) (w : World)
    → all (λ r. not (r.caller == o)) rs ≡ true
    → keep (is_of o) (run_profiles c names rs w).db.tables.profiles
      ≡ keep (is_of o) w.db.tables.profiles
unfolding run_profiles
run_profiles-IsUntouched c names o [] w e = refl
run_profiles-IsUntouched c names o (r ∷ rs) w e =
    let first : not (r.caller == o) ≡ true = ground (arith, e) in
    let rest : all (λ (q : Asked). not (q.caller == o)) rs ≡ true = ground (arith, e) in
    run_profiles-IsUntouched c names o rs _ rest
    ∙ (perform-Held o r.caller first (keep (is_of o) w.db.tables.profiles) c names r.request).at w
        refl

abbrev pub headers_of : ProfileTables → List (Option String)
headers_of t = map (λ (p : ProfileRow). p.header_path) t.profiles

headers_kept :
    (hs : List (Option String)) (u : ℕ) (path : Option String)
    → IsKeptBy (λ t. headers_of t ≡ hs) u (with_avatar path)
unfolding update_profiles
headers_kept hs u path t n t' h e = ground (arith, e, h, each t.profiles)
  where
    each :
        (ps : List ProfileRow)
        → map
            (λ (p : ProfileRow). p.header_path)
            (map (λ p. if is_of u p then with_avatar path p else p) ps)
          ≡ map (λ (p : ProfileRow). p.header_path) ps
    each [] = refl
    each (p ∷ ps) = ground (arith, each ps)

reply_state : (g : GrpcStatus) {A : Type 0} (x : Result A × World) → (reply_of g x).1 ≡ x.1
reply_state g (ok a, w) = refl
reply_state g (err e, w) = refl

-- Whatever fails: `UpdateHeader` of the gRPC server changes no header of any profile.
pub serve_update_header-headers :
    (g : GrpcStatus) (names : Names) (u : ℕ) (files : List File) (w : World)
    → headers_of (serve_update_header g names u files w).1.db.tables ≡ headers_of w.db.tables
unfolding serve_update_header
serve_update_header-headers g names u files w =
    ap (λ (v : World). headers_of v.db.tables) (reply_state g (update_avatar names u files w))
    ∙ (update_avatar-Held (λ t. headers_of t ≡ headers_of w.db.tables) names u
          (λ path. headers_kept (headers_of w.db.tables) u path) files).at
        w refl
