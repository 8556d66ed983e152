-- ===== src/Post/Strands.antt =====
-- Where a refusal or a failure leaves new files in the directory that nothing refers to.
use slps_team.Prelude.{
  ℕ, zero, suc, String, ap, ◌∙◌, arith, ◌≡◌, ◌≤◌, refl, true, false, not, ◌==◌, length, drop, List,
  [], ◌∷◌, some,
}
use slps_team.Errors.{Error, Sentinel, sentinel}
use slps_team.Flow.{Result, ok, err, handled, continue, return_if, flow_steps}
use slps_team.Sql.{Db, sql_steps}
use slps_team.Sql.Calm.{IsCalm}
use slps_team.Sql.Focus.{on_part}
use slps_team.Uploads.{File, Names, Disk, upload_files, delete_files}
use slps_team.Backend.{on_db, on_db_run, on_disk, or_clean, cleaned}
use slps_team.Community.{CommunityRow, Community}
use slps_team.Community.Table.{select_community, with_count}
use slps_team.Community.Store.{get_community_by_id, community_or_not_found}
use slps_team.Post.{PostDb, PostTables}
use slps_team.Post.Store.{get_post_by_id, update_post_row}
use slps_team.Post.Service.{
  Clients, World, communities, no_post_or_db, existing_post, stored_community, may_post_in,
  delete_paths, upload_any, change_files, create_post, update_post,
}
use slps_team.Post.Posting.{uploaded_any}

module _ (names : Names) (clean : World → World) where
  upload_any_run :
      (fs : List File) (w : World) (a : List String) (d : Disk)
      → uploaded_any names fs w.disk ≡ (ok a, d)
      → upload_any names fs clean w ≡ (ok a, record w { disk = d })
  unfolding upload_any on_disk
  upload_any_run [] w a d e =
      ap (λ (x : Result (List String) × Disk). (x.0, record w { disk = x.1 })) e
  upload_any_run (f ∷ fs) w a d e =
      ap
        (λ (x : Result (List String) × Disk).
          cleaned clean Sentinel.service (x.0, record w { disk = x.1 }))
        e

  upload_run :
      (f : File) (fs : List File) (w : World) (a : List String) (d : Disk)
      → upload_files names (f ∷ fs) w.disk ≡ (ok a, d)
      → or_clean clean Sentinel.service (on_disk (upload_files names (f ∷ fs))) w
        ≡ (ok a, record w { disk = d })
  unfolding on_disk
  upload_run f fs w a d e =
      ap
        (λ (x : Result (List String) × Disk).
          cleaned clean Sentinel.service (x.0, record w { disk = x.1 }))
        e

-- One statement later.
abbrev ticked : World → World
ticked w = record w { db = record (w.db) { statements = suc w.db.statements } }

part_found :
    (id : ℕ) (db : Db PostTables) (r : CommunityRow)
    → IsCalm db.env
    → select_community id db.tables.community.communities ≡ some r
    → on_part communities (get_community_by_id id) db
      ≡ (ok (with_count db.tables.community r), record db { statements = suc db.statements })
unfolding get_community_by_id
part_found id db r calm there = simp (calm.answers, there, sql_steps, community_or_not_found)

may_post_in_refused :
    (id u : ℕ) (w : World) (r : CommunityRow)
    → IsCalm w.db.env
    → select_community id w.db.tables.community.communities ≡ some r
    → (r.creator_id == u) ≡ false
    → may_post_in (some id) u w ≡ (err (sentinel Sentinel.access_denied), ticked w)
unfolding may_post_in stored_community
may_post_in_refused id u w r calm there other =
    let found : stored_community id w ≡ (ok (with_count w.db.tables.community r), ticked w) =
      on_db_run _ w _ (part_found id w.db r calm there) in
    ap
      (λ (x : Result Community × World).
        continue (λ (c : Community). return_if (not (c.creator_id == u)) Sentinel.access_denied)
          (handled (λ _. Sentinel.not_found) x))
      found
    ∙ ground (arith, other)

-- While the database answers: a valid post for a community of another user is refused as denied,
-- after its files have been uploaded, and they all stay in the directory.
create_post-strands :
    (c : Clients) (names : Names) (user_id id : ℕ) (text : String) (fs gs : List File) (w : World)
    (r : CommunityRow) (a b : List String) (d d' : Disk)
    → IsCalm w.db.env
    → c.valid_text text ≡ true
    → uploaded_any names fs w.disk ≡ (ok a, d)
    → uploaded_any names gs d ≡ (ok b, d')
    → select_community id w.db.tables.community.communities ≡ some r
    → (r.creator_id == user_id) ≡ false
    → (w' : World) × (create_post c names user_id text (some id) fs gs w
        ≡ (err (sentinel Sentinel.access_denied), w'))
      × (w'.disk ≡ d')
      × (w'.db.tables ≡ w.db.tables)
unfolding create_post
create_post-strands c names user_id id text fs gs w r a b d d' calm fine up up' there other = (
  ticked (record w { disk = d' }),
  simp (
    fine,
    upload_any_run names (λ v. v) fs w a d up,
    upload_any_run names (delete_paths a) gs (record w { disk = d }) b d' up',
    may_post_in_refused id user_id (record w { disk = d' }) r calm there other,
    flow_steps,
  ),
  refl,
  refl,
)

drop_all : (n : ℕ) (xs : List String) → length xs ≤ n → drop n xs ≡ []
drop_all zero [] le = refl
drop_all zero (x ∷ xs) le = absurd (omega arith)
drop_all (suc n) [] le = refl
drop_all (suc n) (x ∷ xs) le = drop_all n xs (omega (arith, le))

drop-length : (xs : List String) → drop (length xs) xs ≡ []
drop-length xs = drop_all (length xs) xs (omega arith)

delete_none : (w : World) → delete_paths [] w ≡ w
unfolding delete_paths delete_files
delete_none w = refl

-- For an update of the author's own post that comes with attachments and without photos, when the
-- post has been read, the upload of the attachments has succeeded, there are no more of them than the
-- post had before, and the rows cannot be written: the answer is ErrDB, and the directory is as the
-- upload has left it, with all the new attachments.
pub update_post-strands :
    (c : Clients) (names : Names) (user_id id : ℕ) (text : String) (f : File) (fs : List File)
    (w : World) (post : PostDb) (db db' : Db PostTables) (a : List String) (d : Disk) (e : Error)
    → c.valid_text text ≡ true
    → get_post_by_id user_id id w.db ≡ (ok post, db)
    → (post.author_id == user_id) ≡ true
    → upload_files names (f ∷ fs) w.disk ≡ (ok a, d)
    → length a ≤ length post.attachments
    → update_post_row id user_id text a post.photos db ≡ (err e, db')
    → update_post c names id user_id text (f ∷ fs) [] w
      ≡ (err (sentinel Sentinel.db), record { db = db'; disk = d })
unfolding update_post existing_post change_files
update_post-strands c names user_id id text f fs w post db db' a d e fine found mine up few failed =
    let existing : existing_post user_id id w ≡ (ok post, record w { db = db }) =
      ap (handled no_post_or_db) (on_db_run _ w _ found) in
    let written : on_db (update_post_row id user_id text a post.photos)
          (record { db = db; disk = d })
        ≡ (err e, record { db = db'; disk = d }) =
      on_db_run _ (record { db = db; disk = d }) _ failed in
    simp (
      fine,
      existing,
      mine,
      upload_run names (λ v. v) f fs (record w { db = db }) a d up,
      drop_all (length post.attachments) a few,
      drop-length post.photos,
      written,
      delete_none,
      cleaned,
      flow_steps,
    )
