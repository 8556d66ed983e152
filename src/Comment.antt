-- ===== src/Comment.antt =====
-- Comments: domain/comment.go, and the table comments of
-- db/migrations/20251008113339_init_db.up.sql.
pub mod Table
pub mod Store
pub mod Service
pub mod Rows
pub mod Authors
mod Tests
use slps_team.Prelude.{ℕ, String, List, Option}

-- `Comment`, a row of comments.
pub record Comment : Type 0 where
  pub id : ℕ
  pub post_id : ℕ
  pub author_id : ℕ
  pub parent_id : Option ℕ
  pub text : String
  pub created_at : ℕ
  pub updated_at : ℕ

-- `CommentView`: a comment with its author's name and avatar.
pub record CommentView : Type 0 where
  pub comment : Comment
  pub open comment use *
  pub author_name : String
  pub author_avatar : Option String

pub record CommentCreateRequest : Type 0 where
  pub post_id : ℕ
  pub text : String

-- The table, the next value of its identity column, and the ids of `posts` and `users`.
pub record CommentTables : Type 0 where
  pub comments : List Comment
  pub next_id : ℕ
  pub posts : List ℕ
  pub users : List ℕ
