-- ===== src/Profile/Pictures.antt =====
-- What a new avatar leaves when its path cannot be stored.
use slps_team.Prelude.{
  ℕ, suc, String, ap, ◌∙◌, arith, ◌≡◌, refl, true, false, [], ◌∷◌, Option, none, some,
}
use slps_team.Prelude.Strings.{equals, equals_complete}
use slps_team.Errors.{Sentinel, sentinel}
use slps_team.Flow.{ok, err, ignoring, flow_steps}
use slps_team.Sql.{Db, driver_error, sql_steps}
use slps_team.Uploads.{
  File, Names, Disk, with_file, name_of, delete_file, delete_files, upload_file, upload_rest,
  upload_files, handle_file_upload,
}
use slps_team.Backend.{on_db_run, on_disk}
use slps_team.Profile.{ProfileRow, ProfileTables}
use slps_team.Profile.Table.{select_profile}
use slps_team.Profile.Store.{row_or_not_found, get_profile_row, get_avatar, update_avatar_row}
use slps_team.Profile.Service.{World, first_path, replace_file, store_avatar, update_avatar}

-- One statement later.
abbrev ticked : Db ProfileTables → Db ProfileTables
ticked db = record db { statements = suc db.statements }

module _ (u : ℕ) (p : ProfileRow) (db : Db ProfileTables) where
  get_avatar_run :
      db.env.fails db.statements ≡ false
      → select_profile u db.tables.profiles ≡ some p
      → get_avatar u db ≡ (ok p.avatar_path, ticked db)
  unfolding get_avatar get_profile_row
  get_avatar_run up there = simp (up, there, row_or_not_found, sql_steps)

  update_avatar_row_down :
      (path : String)
      → db.env.fails db.statements ≡ true
      → update_avatar_row path u db ≡ (err driver_error, ticked db)
  unfolding update_avatar_row
  update_avatar_row_down path down = simp (down, sql_steps)

module _ (names : Names) (file : File) (old : String) (d : Disk)
    (writes : d.write_fails d.drawn ≡ false) (removes : d.remove_fails old ≡ false)
    (some_name : equals old "" ≡ false) where
  abbrev new_name : String
  new_name = name_of names d.drawn file

  -- The directory with the new file and without the old one.
  abbrev exchanged : Disk
  exchanged = record d {
    files = with_file old none (with_file new_name (some file.content) d.files);
    drawn = suc d.drawn;
  }

  exchange_run :
      handle_file_upload names (file ∷ []) (some old ∷ []) d ≡ (ok (new_name ∷ []), exchanged)
  unfolding handle_file_upload upload_files upload_rest upload_file delete_files delete_file
  exchange_run = simp (writes, removes, some_name, ignoring, flow_steps)

-- In a state where the profile has an avatar, files can be written and the old one removed, the
-- query works and the next statement fails: a new avatar ends in a database error, and leaves the
-- tables as they were, with the path of the old avatar, whose file is gone, and the new file, under
-- another name, in the directory.
update_avatar-dangles :
    (names : Names) (u : ℕ) (file : File) (w : World) (p : ProfileRow) (old : String)
    → select_profile u w.db.tables.profiles ≡ some p
    → p.avatar_path ≡ some old
    → equals old "" ≡ false
    → equals (name_of names w.disk.drawn file) old ≡ false
    → w.disk.write_fails w.disk.drawn ≡ false
    → w.disk.remove_fails old ≡ false
    → w.db.env.fails w.db.statements ≡ false
    → w.db.env.fails (suc w.db.statements) ≡ true
    → (w' : World) × (update_avatar names u (file ∷ []) w ≡ (err (sentinel Sentinel.db), w'))
      × (w'.db.tables ≡ w.db.tables)
      × (w'.disk.files old ≡ none)
      × (w'.disk.files (name_of names w.disk.drawn file) ≡ some file.content)
unfolding update_avatar store_avatar replace_file on_disk
update_avatar-dangles names u file w p old there has some_name fresh writes removes up down =
    let found : get_avatar u w.db ≡ (ok (some old), ticked w.db) =
      get_avatar_run u p w.db up there ∙ ap (λ (o : Option String). (ok o, ticked w.db)) has in
    let swapped = exchange_run names file old w.disk writes removes some_name in
    let asked = on_db_run (get_avatar u) w _ found in
    let path : String = name_of names w.disk.drawn file in
    let disk : Disk = exchanged names file old w.disk writes removes some_name in
    let refused =
      on_db_run (update_avatar_row path u) (record { db = ticked w.db; disk = disk }) _
        (update_avatar_row_down u p (ticked w.db) path down) in
    (
      record { db = ticked (ticked w.db); disk = disk },
      simp (asked, swapped, refused, first_path, flow_steps),
      refl,
      ground (arith, equals_complete old old refl),
      ground (arith, fresh, equals_complete path path refl),
    )
