-- ===== src/Comment/Table.antt =====
-- The statements of internal/repository/db/comment.go, on the table of comments.
use Prim.Native.String.{count}
use slps_team.Prelude.{
  is_one_of, ℕ, zero, suc, String, Bool, false, not, ◌&&◌, ◌||◌, ◌==◌, leb, List, [], ◌∷◌, map,
  keep, tally, length, Option, none, some, if◌then◌else◌,
}
use slps_team.Comment.{Comment, CommentTables}

-- `LENGTH(text) BETWEEN 1 AND 4096`
unfoldable pub fits_length : String → Bool
fits_length text = leb 1 (count text) && leb (count text) 4096

-- `WHERE id = … AND author_id = …`
abbrev pub written_by : ℕ → ℕ → Comment → Bool
written_by id author_id c = c.id == id && c.author_id == author_id

-- `INSERT INTO comments (post_id, author_id, text) … RETURNING id, created_at, updated_at`, here the
-- whole row.
unfoldable pub insert_comment :
    ℕ → ℕ → String → ℕ → CommentTables → Option (Comment × CommentTables)
insert_comment post_id author_id text now t =
    if fits_length text && is_one_of t.posts post_id && is_one_of t.users author_id
    then (let row : Comment = record {
      id = t.next_id;
      post_id = post_id;
      author_id = author_id;
      parent_id = none;
      text = text;
      created_at = now;
      updated_at = now;
    } in
        some (row, record t { comments = row ∷ t.comments; next_id = suc t.next_id }))
    else none

-- `SET text = $1, updated_at = CURRENT_TIMESTAMP`
abbrev pub rewritten : ℕ → ℕ → String → ℕ → Comment → Comment
rewritten id author_id text now c =
    if written_by id author_id c then record c { text = text; updated_at = now } else c

-- `UPDATE comments … WHERE id = $2 AND author_id = $3 RETURNING updated_at`: how many rows it returns.
unfoldable pub update_comments : ℕ → ℕ → String → ℕ → CommentTables → Option (ℕ × CommentTables)
update_comments id author_id text now t =
    let found = tally (written_by id author_id) t.comments in
    if found == 0 || fits_length text
    then some (found, record t { comments = map (rewritten id author_id text now) t.comments })
    else none

abbrev pub answers_one_of : List ℕ → Option ℕ → Bool
answers_one_of ids none = false
answers_one_of ids (some parent) = is_one_of ids parent

abbrev pub replies_to : List ℕ → Comment → Bool
replies_to ids c = answers_one_of ids c.parent_id

-- The ids of deleted rows and of the rows that go with them (`ON DELETE CASCADE` of parent_id): a
-- row is reached after as many rounds as there are rows at most.
unfoldable pub cascade : ℕ → List Comment → List ℕ → List ℕ
cascade zero cs ids = ids
cascade (suc rounds) cs ids =
    cascade rounds cs
      (map (λ (c : Comment). c.id) (keep (λ c. is_one_of ids c.id || replies_to ids c) cs))

-- `DELETE FROM comments WHERE id = $1 AND author_id = $2`
unfoldable pub delete_comments : ℕ → ℕ → CommentTables → Option (ℕ × CommentTables)
delete_comments id author_id t =
    let gone =
      cascade (length t.comments) t.comments
        (map (λ (c : Comment). c.id) (keep (written_by id author_id) t.comments)) in
    some (
      tally (written_by id author_id) t.comments,
      record t { comments = keep (λ c. not (is_one_of gone c.id)) t.comments },
    )

abbrev pub select_comment : ℕ → List Comment → Option Comment
select_comment id [] = none
select_comment id (c ∷ cs) = if c.id == id then some c else select_comment id cs

-- `ORDER BY created_at DESC`
abbrev pub newer : Comment → Comment → Bool
newer c d = leb d.created_at c.created_at
