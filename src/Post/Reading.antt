-- ===== src/Post/Reading.antt =====
-- A new post as it is read back.
use slps_team.Prelude.{
  ℕ, suc, String, ap, sym, subst, ◌∙◌, arith, ◌≡◌, refl, false, ◌==◌, any, tally, List, [], ◌∷◌,
  ◌++◌, Option, none, some,
}
use slps_team.Flow.{ok, handled, flow_steps}
use slps_team.Flow.Meets.{Lands}
use slps_team.Sql.{Db, sql_steps}
use slps_team.Sql.Calm.{IsCalm}
use slps_team.Uploads.{File, Names}
use slps_team.Backend.{on_db_run}
use slps_team.Comment.{Comment}
use slps_team.Comment.Service.{ShortProfile}
use slps_team.Post.{PostRow, MediaRow, Like, Post, PostDb, PostView, PostTables}
use slps_team.Post.Table.{
  Media, media_rows, is_media_of, is_like, paths_of, joined, select_post, fresh_row,
}
use slps_team.Post.Store.{get_media, with_media, post_or_not_found, get_post_by_id}
use slps_team.Post.Service.{
  Clients, World, no_post_or_db, existing_post, view_with, enrich_post, get_post, create_post,
}
use slps_team.Post.Posting.Rows.{rows_at, posted, Back}
use slps_team.Post.Posting.{IsAccepted, create_post-IsOutcome}

-- A post with the files of its rows, as the store gives it.
abbrev pub read_post : ℕ → PostTables → PostRow → PostDb
read_post user_id t p = record (joined user_id t p) {
  post = record {
    row = p;
    attachments = paths_of p.id t.attachments;
    photos = paths_of p.id t.photos;
  };
}

module _ (db : Db PostTables) (calm : IsCalm db.env) where
  get_media_calm :
      (m : Media) (n id : ℕ)
      → get_media m id (record db { statements = n })
        ≡ (ok (paths_of id (media_rows m db.tables)), record db { statements = suc n })
  unfolding get_media
  get_media_calm m n id = simp (calm.answers, calm.readable, sql_steps)

  get_post_by_id_calm :
      (user_id id : ℕ) (p : PostRow)
      → select_post id db.tables.posts ≡ some p
      → get_post_by_id user_id id db ≡ (
        ok (read_post user_id db.tables p),
        record db { statements = suc (suc (suc db.statements)) },
      )
  unfolding get_post_by_id with_media
  get_post_by_id_calm user_id id p found = simp (
    calm.answers,
    found,
    post_or_not_found,
    get_media_calm Media.attachment (suc db.statements),
    get_media_calm Media.photo (suc (suc db.statements)),
    sql_steps,
  )

module _ (c : Clients) (w : World) (calm : IsCalm w.db.env) where
  abbrev later : World
  later = record w { db = record (w.db) { statements = suc (suc (suc w.db.statements)) } }

  pub get_post_calm :
      (user_id id : ℕ) (p : PostRow) (profiles : ℕ → Option ShortProfile)
      → select_post id w.db.tables.posts ≡ some p
      → c.short_profile_map (p.author_id ∷ []) ≡ ok profiles
      → get_post c user_id id w
        ≡ (ok (view_with (profiles p.author_id) (read_post user_id w.db.tables p)), later)
  unfolding get_post existing_post enrich_post
  get_post_calm user_id id p profiles found known =
      let read : existing_post user_id id w ≡ (ok (read_post user_id w.db.tables p), later) =
        ap (handled no_post_or_db) (
          on_db_run (get_post_by_id user_id id) w _
            (get_post_by_id_calm w.db calm user_id id p found)) in
      simp (read, known, flow_steps)

-- The new files of a post that had none.
paths-rows_at : (now id : ℕ) (paths : List String) → paths_of id (rows_at now id paths) ≡ paths
paths-rows_at now id [] = refl
paths-rows_at now id (path ∷ paths) = ground (arith, paths-rows_at now id paths)

paths-new :
    (now id : ℕ) (rows : List MediaRow) (paths : List String)
    → any (is_media_of id) rows ≡ false
    → paths_of id (rows ++ rows_at now id paths) ≡ paths
paths-new now id [] paths e = paths-rows_at now id paths
paths-new now id (r ∷ rs) paths e = ground (arith, e, paths-new now id rs paths)

no_likes :
    (id : ℕ) (ls : List Like)
    → any (λ l. l.post_id == id) ls ≡ false
    → tally (λ l. l.post_id == id) ls ≡ 0
no_likes id [] e = refl
no_likes id (l ∷ ls) e = ground (arith, e, no_likes id ls)

not_liked :
    (id v : ℕ) (ls : List Like)
    → any (λ l. l.post_id == id) ls ≡ false
    → any (is_like id v) ls ≡ false
not_liked id v [] e = refl
not_liked id v (l ∷ ls) e = ground (arith, e, not_liked id v ls)

no_comments :
    (id : ℕ) (cs : List Comment)
    → any (λ c. c.post_id == id) cs ≡ false
    → tally (λ c. c.post_id == id) cs ≡ 0
no_comments id [] e = refl
no_comments id (c ∷ cs) e = ground (arith, e, no_comments id cs)

-- Nothing refers to the next post id.
pub record IsUnused (t : PostTables) : Type 0 where
  pub attachments : any (is_media_of t.next_id) t.attachments ≡ false
  pub photos : any (is_media_of t.next_id) t.photos ≡ false
  pub likes : any (λ l. l.post_id == t.next_id) t.likes ≡ false
  pub comments : any (λ c. c.post_id == t.next_id) t.comments ≡ false

-- A view of the post as it was made, which nobody has liked or commented on.
pub record IsNew (post : Post) (view : PostView) : Type 0 where
  pub whole : view.stored.post ≡ post
  pub likes : view.stored.like_count ≡ 0
  pub comments : view.stored.comments_count ≡ 0
  pub unliked : view.stored.is_liked ≡ false

module _ (user_id : ℕ) (text : String) (community_id : Option ℕ) (post : Post) (now : ℕ)
    (t : PostTables) (unused : IsUnused t)
    (made : post.row ≡ fresh_row t.next_id user_id community_id text now) where
  abbrev after : PostTables
  after = posted user_id text community_id post.attachments post.photos now t

  read-IsNew :
      (v : ℕ) (o : Option ShortProfile) → IsNew post (view_with o (read_post v after post.row))
  read-IsNew v o = shown o
    where
      id : post.row.id ≡ t.next_id
      id = ap (λ (r : PostRow). r.id) made

      files : (read_post v after post.row).post ≡ post
      files =
          ap
            (λ (i : ℕ). record {
              row = post.row;
              attachments = paths_of i after.attachments;
              photos = paths_of i after.photos;
            })
            id
          ∙ cc (
            paths-new now t.next_id t.attachments post.attachments unused.attachments,
            paths-new now t.next_id t.photos post.photos unused.photos,
          )

      shown : (o : Option ShortProfile) → IsNew post (view_with o (read_post v after post.row))
      shown none = record {
        whole = files;
        likes = rw id (no_likes t.next_id t.likes unused.likes);
        comments = rw id (no_comments t.next_id t.comments unused.comments);
        unliked = rw id (not_liked t.next_id v t.likes unused.likes);
      }
      shown (some p) = record {
        whole = files;
        likes = rw id (no_likes t.next_id t.likes unused.likes);
        comments = rw id (no_comments t.next_id t.comments unused.comments);
        unliked = rw id (not_liked t.next_id v t.likes unused.likes);
      }

found_first :
    (user_id next now : ℕ) (text : String) (community_id : Option ℕ) (row : PostRow)
    (rest : List PostRow)
    → row ≡ fresh_row next user_id community_id text now
    → select_post row.id (fresh_row next user_id community_id text now ∷ rest) ≡ some row
found_first user_id next now text community_id row rest e =
    let id : row.id ≡ next = ap (λ (r : PostRow). r.id) e in ground (arith, id, e)

-- In tables where nothing refers to the next post id: when `CreatePost` has given a post, whatever
-- failed on its way, and the database answers from then on, and the profile service answers for the
-- author: asking for the post by its id gives, to any user, that post with its text, its community
-- and its files in order, no likes, no comments, and not liked.
pub create_post-get_post :
    (c : Clients) (names : Names) (user_id v : ℕ) (text : String) (community_id : Option ℕ)
    (fs gs : List File) (w : World) (post : Post) (w' : World) (profiles : ℕ → Option ShortProfile)
    → IsUnused w.db.tables
    → create_post c names user_id text community_id fs gs w ≡ (ok post, w')
    → IsCalm w'.db.env
    → c.short_profile_map (user_id ∷ []) ≡ ok profiles
    → (view : PostView) × (w'' : World) × (get_post c v post.id w' ≡ (ok view, w''))
      × IsNew post view
      × (post.text ≡ text)
      × (post.community_id ≡ community_id)
      × (post.author_id ≡ user_id)
create_post-get_post c names user_id v text community_id fs gs w post w' profiles unused ran calm
      known =
    let (_, _, _, (now, made, tables)) =
      subst
        (Lands (IsAccepted c names user_id text community_id fs gs w)
          (λ (x : World). Back w.db.tables x.db.tables))
        ran (create_post-IsOutcome c names user_id text community_id fs gs w) in
    let found : select_post post.id w'.db.tables.posts ≡ some post.row =
      ap (λ (x : PostTables). select_post post.id x.posts) tables
      ∙ found_first user_id w.db.tables.next_id now text community_id post.row w.db.tables.posts
          made in
    let author : post.author_id ≡ user_id = ap (λ (r : PostRow). r.author_id) made in
    let asked : c.short_profile_map (post.author_id ∷ []) ≡ ok profiles =
      ap (λ (i : ℕ). c.short_profile_map (i ∷ [])) author ∙ known in
    (
      view_with (profiles post.author_id) (read_post v w'.db.tables post.row),
      later c w' calm,
      get_post_calm c w' calm v post.id post.row profiles found asked,
      subst
          (λ (x : PostTables).
            IsNew post (view_with (profiles post.author_id) (read_post v x post.row)))
          (sym tables)
          (read-IsNew user_id text community_id post now w.db.tables unused made v
            (profiles post.author_id)),
      ap (λ (r : PostRow). r.text) made,
      ap (λ (r : PostRow). r.community_id) made,
      author,
    )
