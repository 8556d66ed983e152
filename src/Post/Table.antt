-- ===== src/Post/Table.antt =====
-- The statements of internal/repository/db/post.go, on the tables.
use Prim.Native.String.{count}
use slps_team.Prelude.{
  is_one_of, ℕ, suc, String, Bool, true, false, not, ◌&&◌, ◌||◌, ◌==◌, leb, List, [], ◌∷◌, ◌++◌,
  map, keep, any, tally, length, Option, none, some, if◌then◌else◌,
}
use slps_team.Comment.{Comment}
use slps_team.Comment.Table.{cascade}
use slps_team.Community.{CommunityRow}
use slps_team.Community.Table.{has_id, is_subscription, select_community}
use slps_team.Post.{PostRow, MediaRow, Like, PostDb, PostTables}

-- `LENGTH(text) BETWEEN 0 AND 4096`, and `LENGTH(file_path) BETWEEN 1 AND 512`.
unfoldable pub fits_length : String → Bool
fits_length text = leb (count text) 4096

unfoldable pub fits_path : String → Bool
fits_path path = leb 1 (count path) && leb (count path) 512

-- `WHERE id = … AND author_id = …`
abbrev pub written_by : ℕ → ℕ → PostRow → Bool
written_by id author_id p = p.id == id && p.author_id == author_id

abbrev pub is_community : Option ℕ → PostTables → Bool
is_community none t = true
is_community (some c) t = any (has_id c) t.community.communities

abbrev pub fresh_row : ℕ → ℕ → Option ℕ → String → ℕ → PostRow
fresh_row id author_id community_id text now = record {
  id = id;
  author_id = author_id;
  community_id = community_id;
  text = text;
  created_at = now;
  updated_at = now;
}

-- `INSERT INTO posts … RETURNING id, created_at, updated_at`, here the whole row.
unfoldable pub insert_post : ℕ → String → Option ℕ → ℕ → PostTables → Option (PostRow × PostTables)
insert_post author_id text community_id now t =
    if fits_length text && is_one_of t.community.users author_id && is_community community_id t
    then (let row = fresh_row t.next_id author_id community_id text now in
        some (row, record t { posts = row ∷ t.posts; next_id = suc t.next_id }))
    else none

-- The two tables of files.
pub data Media : Type 0 where
  attachment photo : Media

abbrev pub media_rows : Media → PostTables → List MediaRow
media_rows Media.attachment t = t.attachments
media_rows Media.photo t = t.photos

abbrev pub with_media_rows : Media → List MediaRow → PostTables → PostTables
with_media_rows Media.attachment rows t = record t { attachments = rows }
with_media_rows Media.photo rows t = record t { photos = rows }

abbrev pub media_row : ℕ → ℕ → String → MediaRow
media_row now post_id path = record { post_id = post_id; file_path = path; created_at = now }

abbrev pub is_post : ℕ → PostRow → Bool
is_post id p = p.id == id

-- `INSERT INTO post_attachments (post_id, file_path) VALUES ($1, $2)`, or into post_photos.
unfoldable pub insert_media : Media → ℕ → String → ℕ → PostTables → Option (ℕ × PostTables)
insert_media m post_id path now t =
    if fits_path path && any (is_post post_id) t.posts
    then some (1, with_media_rows m (media_rows m t ++ media_row now post_id path ∷ []) t)
    else none

abbrev pub is_media_of : ℕ → MediaRow → Bool
is_media_of post_id r = r.post_id == post_id

-- `DELETE FROM post_attachments WHERE post_id = $1`, or from post_photos.
unfoldable pub delete_media : Media → ℕ → PostTables → Option (ℕ × PostTables)
delete_media m post_id t = some (
  tally (is_media_of post_id) (media_rows m t),
  with_media_rows m (keep (λ r. not (is_media_of post_id r)) (media_rows m t)) t,
)

-- The paths of the files of a post, in the order of their ids.
abbrev pub paths_of : ℕ → List MediaRow → List String
paths_of post_id rows = map (λ (r : MediaRow). r.file_path) (keep (is_media_of post_id) rows)

abbrev pub rewritten : ℕ → ℕ → String → ℕ → PostRow → PostRow
rewritten id author_id text now p =
    if written_by id author_id p then record p { text = text; updated_at = now } else p

-- `UPDATE posts … WHERE id = $3 AND author_id = $4 RETURNING updated_at`: how many rows it returns.
-- The trigger of the table replaces the time given by that of the transaction.
unfoldable pub update_posts : ℕ → ℕ → String → ℕ → PostTables → Option (ℕ × PostTables)
update_posts id author_id text now t =
    let found = tally (written_by id author_id) t.posts in
    if found == 0 || fits_length text
    then some (found, record t { posts = map (rewritten id author_id text now) t.posts })
    else none

-- `DELETE FROM posts WHERE id = $1 AND author_id = $2`; the files, the likes and the comments of a
-- deleted post go with it (ON DELETE CASCADE), and the replies to these.
unfoldable pub delete_posts : ℕ → ℕ → PostTables → Option (ℕ × PostTables)
delete_posts id author_id t =
    let deleted = any (written_by id author_id) t.posts in
    let gone =
      cascade (length t.comments) t.comments
        (map (λ (c : Comment). c.id) (keep (λ c. deleted && c.post_id == id) t.comments)) in
    some (
      tally (written_by id author_id) t.posts,
      record t {
        posts = keep (λ p. not (written_by id author_id p)) t.posts;
        attachments = keep (λ r. not (deleted && is_media_of id r)) t.attachments;
        photos = keep (λ r. not (deleted && is_media_of id r)) t.photos;
        likes = keep (λ l. not (deleted && l.post_id == id)) t.likes;
        comments = keep (λ c. not (is_one_of gone c.id)) t.comments;
      },
    )

abbrev pub is_like : ℕ → ℕ → Like → Bool
is_like post_id user_id l = l.post_id == post_id && l.user_id == user_id

-- `WITH toggled AS (DELETE … RETURNING *) INSERT … WHERE NOT EXISTS (SELECT 1 FROM toggled)`, with
-- both foreign keys: how many rows it inserts.
unfoldable pub toggle_likes : ℕ → ℕ → ℕ → PostTables → Option (ℕ × PostTables)
toggle_likes post_id user_id now t =
    if any (is_like post_id user_id) t.likes
    then some (0, record t { likes = keep (λ l. not (is_like post_id user_id l)) t.likes })
    else if any (is_post post_id) t.posts && is_one_of t.community.users user_id
    then some (
      1,
      record t {
        likes = record { post_id = post_id; user_id = user_id; created_at = now } ∷ t.likes;
      },
    )
    else none

abbrev pub likes_of : ℕ → PostTables → ℕ
likes_of post_id t = tally (λ l. l.post_id == post_id) t.likes

abbrev pub comments_of : ℕ → PostTables → ℕ
comments_of post_id t = tally (λ c. c.post_id == post_id) t.comments

-- `LEFT JOIN communities c ON p.community_id = c.id`
abbrev pub joined_community : Option ℕ → PostTables → Option CommunityRow
joined_community none t = none
joined_community (some c) t = select_community c t.community.communities

abbrev pub name_of : Option CommunityRow → Option String
name_of none = none
name_of (some c) = some c.name

abbrev pub avatar_of : Option CommunityRow → Option String
avatar_of none = none
avatar_of (some c) = c.avatar_path

-- The SELECT list that the four queries share, its files not yet loaded.
abbrev pub joined : ℕ → PostTables → PostRow → PostDb
joined user_id t p = record {
  post = record { row = p; attachments = []; photos = [] };
  community_name = name_of (joined_community p.community_id t);
  community_avatar = avatar_of (joined_community p.community_id t);
  like_count = likes_of p.id t;
  comments_count = comments_of p.id t;
  is_liked = any (is_like p.id user_id) t.likes;
}

abbrev pub select_post : ℕ → List PostRow → Option PostRow
select_post id [] = none
select_post id (p ∷ ps) = if is_post id p then some p else select_post id ps

abbrev pub joined_post : ℕ → PostTables → Option PostRow → Option PostDb
joined_post user_id t none = none
joined_post user_id t (some p) = some (joined user_id t p)

-- `p.community_id IS NULL OR p.community_id IN (SELECT community_id … WHERE user_id = $3)`
abbrev pub shown_to : ℕ → PostTables → Option ℕ → Bool
shown_to user_id t none = true
shown_to user_id t (some c) = any (is_subscription c user_id) t.community.subscriptions

abbrev pub is_personal : Option ℕ → Bool
is_personal none = true
is_personal (some c) = false

abbrev pub is_in : ℕ → Option ℕ → Bool
is_in community_id none = false
is_in community_id (some c) = c == community_id

-- `ORDER BY p.created_at DESC`
abbrev pub newer : PostRow → PostRow → Bool
newer p q = leb q.created_at p.created_at
