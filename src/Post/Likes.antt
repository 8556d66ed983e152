-- ===== src/Post/Likes.antt =====
-- Likes: what one press of the button does, and two.
use slps_team.Prelude.{
  ℕ, suc, ◌+◌, ap, ◌∙◌, sym, subst, arith, ◌≡◌, refl, Bool, true, false, not, ◌&&◌, ◌==◌, is_one_of,
  if◌then◌else◌, any, keep, tally, List, [], ◌∷◌, Option, none, some, Bool-cases, inl, inr,
}
use slps_team.Errors.{Sentinel}
use slps_team.Flow.{ok, handled, ◌>>◌, flow_steps}
use slps_team.Sql.{Db, sql_steps}
use slps_team.Sql.Calm.{IsCalm}
use slps_team.Backend.{on_db_run}
use slps_team.Community.Table.{select_community}
use slps_team.Post.{PostRow, Like, PostTables}
use slps_team.Post.Table.{
  is_post, is_like, likes_of, comments_of, joined_community, joined, toggle_likes,
}
use slps_team.Post.Store.{update_like_row}
use slps_team.Post.Service.{World, update_like}

abbrev pub liked : ℕ → ℕ → PostTables → Bool
liked post_id user_id t = any (is_like post_id user_id) t.likes

-- One like of a post by a user at most: the key of post_likes.
abbrev pub IsKeyed : ℕ → ℕ → PostTables → Type 0
IsKeyed post_id user_id t =
    tally (is_like post_id user_id) t.likes ≡ (if liked post_id user_id t then 1 else 0)

-- The user's like of the post is turned over, and nothing else changes.
pub record IsTurned (post_id user_id : ℕ) (t t' : PostTables) : Type 0 where
  pub others : t' ≡ record t { likes = t'.likes }
  pub turned : liked post_id user_id t' ≡ not (liked post_id user_id t)
  pub elsewhere : (p u : ℕ) → (p == post_id && u == user_id) ≡ false → liked p u t' ≡ liked p u t
  pub counted :
      likes_of post_id t' + (if liked post_id user_id t then 1 else 0)
      ≡ likes_of post_id t + (if liked post_id user_id t then 0 else 1)
  pub counted_elsewhere : (p : ℕ) → (p == post_id) ≡ false → likes_of p t' ≡ likes_of p t
  pub keyed : IsKeyed post_id user_id t'

module _ (post_id user_id : ℕ) where
  abbrev unlike : List Like → List Like
  unlike ls = keep (λ l. not (is_like post_id user_id l)) ls

  none_left : (ls : List Like) → any (is_like post_id user_id) (unlike ls) ≡ false
  none_left [] = refl
  none_left (l ∷ ls) = ground (arith, none_left ls)

  no_tally : (ls : List Like) → tally (is_like post_id user_id) (unlike ls) ≡ 0
  no_tally [] = refl
  no_tally (l ∷ ls) = ground (arith, no_tally ls)

  any-unlike :
      (p u : ℕ) (ls : List Like)
      → (p == post_id && u == user_id) ≡ false
      → any (is_like p u) (unlike ls) ≡ any (is_like p u) ls
  any-unlike p u [] e = refl
  any-unlike p u (l ∷ ls) e = ground (arith, e, any-unlike p u ls e)

  tally-unlike :
      (ls : List Like)
      → tally (λ l. l.post_id == post_id) (unlike ls) + tally (is_like post_id user_id) ls
        ≡ tally (λ l. l.post_id == post_id) ls
  tally-unlike [] = omega arith
  tally-unlike (l ∷ ls) = ground (arith, tally-unlike ls)

  tally-unlike_elsewhere :
      (p : ℕ) (ls : List Like)
      → (p == post_id) ≡ false
      → tally (λ l. l.post_id == p) (unlike ls) ≡ tally (λ l. l.post_id == p) ls
  tally-unlike_elsewhere p [] e = refl
  tally-unlike_elsewhere p (l ∷ ls) e = ground (arith, e, tally-unlike_elsewhere p ls e)

  unliked :
      (ls : List Like)
      → any (is_like post_id user_id) ls ≡ false
      → tally (is_like post_id user_id) ls ≡ 0
  unliked [] e = refl
  unliked (l ∷ ls) e = ground (arith, e, unliked ls)

  -- The post and the user are there, or the like is.
  module _ (now : ℕ) (t : PostTables) (there : any (is_post post_id) t.posts ≡ true)
      (known : is_one_of t.community.users user_id ≡ true) where
    abbrev after : PostTables
    after = if liked post_id user_id t then record t { likes = unlike t.likes } else record t {
      likes = record { post_id = post_id; user_id = user_id; created_at = now } ∷ t.likes;
    }

    abbrev inserted : ℕ
    inserted = if liked post_id user_id t then 0 else 1

    toggle_likes_run : toggle_likes post_id user_id now t ≡ some (inserted, after)
    unfolding toggle_likes
    toggle_likes_run = ground (arith, there, known)

    after-IsTurned : IsKeyed post_id user_id t → IsTurned post_id user_id t after
    after-IsTurned key = elim (Bool-cases (liked post_id user_id t)) [
      | inl yes_liked ↦
          let once : tally (is_like post_id user_id) t.likes ≡ 1 = ground (arith, key, yes_liked) in
          rw yes_liked (record {
            others = refl;
            turned = ground (arith, yes_liked, none_left t.likes);
            elsewhere = λ p u e. any-unlike p u t.likes e;
            counted = ground (arith, yes_liked, tally-unlike t.likes, once);
            counted_elsewhere = λ p e. tally-unlike_elsewhere p t.likes e;
            keyed = ground (arith, no_tally t.likes, none_left t.likes);
          })
      | inr not_liked ↦ rw not_liked (record {
        others = refl;
        turned = ground (arith, not_liked);
        elsewhere = λ p u e. ground (arith, e);
        counted = ground (arith, not_liked);
        counted_elsewhere = λ p e. ground (arith, e);
        keyed = ground (arith, unliked t.likes not_liked);
      })
    ]

  update_like_row_calm :
      (db : Db PostTables)
      → IsCalm db.env
      → (n : ℕ) (t : PostTables)
      → toggle_likes post_id user_id (db.env.time db.statements) db.tables ≡ some (n, t)
      → update_like_row user_id post_id db
        ≡ (ok tt, record db { tables = t; statements = suc db.statements })
  unfolding update_like_row
  update_like_row_calm db calm n t e = simp (calm.answers, e, sql_steps)

  module _ (w : World) (calm : IsCalm w.db.env)
      (there : any (is_post post_id) w.db.tables.posts ≡ true)
      (known : is_one_of w.db.tables.community.users user_id ≡ true) where
    abbrev pressed : World
    pressed = record w {
      db = record (w.db) {
        tables = after (w.db.env.time w.db.statements) w.db.tables there known;
        statements = suc w.db.statements;
      };
    }

    update_like_run : update_like user_id post_id w ≡ (ok tt, pressed)
    unfolding update_like
    update_like_run = ap (handled (λ _. Sentinel.db)) (
        on_db_run _ w _ (
          update_like_row_calm w.db calm _ _
            (toggle_likes_run (w.db.env.time w.db.statements) w.db.tables there known)))

-- While the database answers, for a post and a user that exist, where the user has liked the post
-- once at most: pressing the button succeeds, and turns over whether the user likes the post; the
-- post's number of likes goes up or down by one with it. No other like, no other table and no file
-- changes.
pub update_like-IsTurned :
    (post_id user_id : ℕ) (w : World)
    → IsCalm w.db.env
    → any (is_post post_id) w.db.tables.posts ≡ true
    → is_one_of w.db.tables.community.users user_id ≡ true
    → IsKeyed post_id user_id w.db.tables
    → (w' : World) × (update_like user_id post_id w ≡ (ok tt, w'))
      × IsTurned post_id user_id w.db.tables w'.db.tables
      × (w'.disk ≡ w.disk)
      × (w'.db.env ≡ w.db.env)
update_like-IsTurned post_id user_id w calm there known key = (
  pressed post_id user_id w calm there known,
  update_like_run post_id user_id w calm there known,
  after-IsTurned post_id user_id (w.db.env.time w.db.statements) w.db.tables there known key,
  refl,
  refl,
)

-- What two turns leave of a post's number of likes.
twice_counted :
    (b b' : Bool) (n m k : ℕ)
    → b' ≡ not b
    → m + (if b then 1 else 0) ≡ n + (if b then 0 else 1)
    → k + (if b' then 1 else 0) ≡ m + (if b' then 0 else 1)
    → k ≡ n
twice_counted true b' n m k e f g = ground (arith, e, f, g)
twice_counted false b' n m k e f g = ground (arith, e, f, g)

module _ (post_id user_id : ℕ) (t t' t'' : PostTables) (first : IsTurned post_id user_id t t')
    (second : IsTurned post_id user_id t' t'') where
  same_tables : t'' ≡ record t { likes = t''.likes }
  same_tables = second.others ∙ ap (λ (x : PostTables). record x { likes = t''.likes }) first.others

  same_liked : (p u : ℕ) → liked p u t'' ≡ liked p u t
  same_liked p u = elim (Bool-cases (p == post_id && u == user_id)) [
    | inl it ↦
        let same_p : p ≡ post_id = ground (arith, it) in
        let same_u : u ≡ user_id = ground (arith, it) in
        rw (same_p, same_u) (ground (arith, first.turned, second.turned))
    | inr other ↦ second.elsewhere p u other ∙ first.elsewhere p u other
  ]

  same_count : (p : ℕ) → likes_of p t'' ≡ likes_of p t
  same_count p = elim (Bool-cases (p == post_id)) [
    | inl it ↦
        let same_p : p ≡ post_id = ground (arith, it) in
        rw same_p (
          twice_counted (liked post_id user_id t) (liked post_id user_id t') _ _ _ first.turned
            first.counted second.counted)
    | inr other ↦ second.counted_elsewhere p other ∙ first.counted_elsewhere p other
  ]

  same_community : (o : Option ℕ) → joined_community o t'' ≡ joined_community o t
  same_community none = refl
  same_community (some c) =
      ap (λ (x : PostTables). select_community c x.community.communities) same_tables

  twice_joined : (v : ℕ) (row : PostRow) → joined v t'' row ≡ joined v t row
  twice_joined v row = cc (
    same_community row.community_id,
    same_count row.id,
    same_liked row.id v,
    ap (λ (x : PostTables). comments_of row.id x) same_tables,
  )

-- While the database answers, for a post and a user that exist, where the user has liked the post
-- once at most: pressing the button twice succeeds; all tables but the likes are as before, the files
-- of posts included, and so is the directory; who likes which post is as before; and every row of
-- posts is joined for every user to what it was joined to before, its number of likes included.
pub update_like-twice :
    (post_id user_id : ℕ) (w : World)
    → IsCalm w.db.env
    → any (is_post post_id) w.db.tables.posts ≡ true
    → is_one_of w.db.tables.community.users user_id ≡ true
    → IsKeyed post_id user_id w.db.tables
    → (w' : World) × ((update_like user_id post_id >> update_like user_id post_id) w ≡ (ok tt, w'))
      × (w'.db.tables ≡ record (w.db.tables) { likes = w'.db.tables.likes })
      × (w'.disk ≡ w.disk)
      × ((p u : ℕ) → liked p u w'.db.tables ≡ liked p u w.db.tables)
      × ((v : ℕ) (row : PostRow) → joined v w'.db.tables row ≡ joined v w.db.tables row)
update_like-twice post_id user_id w calm there known key =
    let (w1, ran1, turned1, disk1, env1) =
      update_like-IsTurned post_id user_id w calm there known key in
    let posts1 : any (is_post post_id) w1.db.tables.posts ≡ true =
      ap (λ (t : PostTables). any (is_post post_id) t.posts) turned1.others ∙ there in
    let known1 : is_one_of w1.db.tables.community.users user_id ≡ true =
      ap (λ (t : PostTables). is_one_of t.community.users user_id) turned1.others ∙ known in
    let (w2, ran2, turned2, disk2, _) =
      update_like-IsTurned post_id user_id w1 (subst IsCalm (sym env1) calm) posts1 known1
        turned1.keyed in
    (
      w2,
      simp (ran1, flow_steps) ran2,
      same_tables post_id user_id w.db.tables w1.db.tables w2.db.tables turned1 turned2,
      disk2 ∙ disk1,
      same_liked post_id user_id w.db.tables w1.db.tables w2.db.tables turned1 turned2,
      twice_joined post_id user_id w.db.tables w1.db.tables w2.db.tables turned1 turned2,
    )
