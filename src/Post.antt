-- ===== src/Post.antt =====
-- Posts: domain/post.go, and the tables posts, post_attachments, post_photos and post_likes of
-- db/migrations/20251008113339_init_db.up.sql.
pub mod Table
pub mod Store
pub mod Service
mod Rows
mod Kept
pub mod Requests
pub mod Authors
pub mod Rightful
pub mod Likes
pub mod Posting
pub mod Refusals
pub mod Strands
pub mod Reading
mod Tests
use slps_team.Prelude.{ℕ, String, Bool, List, Option}
use slps_team.Comment.{Comment}
use slps_team.Community.{CommunityTables}

-- A row of posts.
pub record PostRow : Type 0 where
  pub id : ℕ
  pub author_id : ℕ
  pub community_id : Option ℕ
  pub text : String
  pub created_at : ℕ
  pub updated_at : ℕ

-- A row of post_attachments or post_photos; the identity column is the order of the rows.
pub record MediaRow : Type 0 where
  pub post_id : ℕ
  pub file_path : String
  pub created_at : ℕ

-- A row of post_likes.
pub record Like : Type 0 where
  pub post_id : ℕ
  pub user_id : ℕ
  pub created_at : ℕ

-- `Post`, of which a new one has no likes.
pub record Post : Type 0 where
  pub row : PostRow
  pub open row use *
  pub attachments : List String
  pub photos : List String

-- `PostDB`: a post with the names and the counts that a query joins.
pub record PostDb : Type 0 where
  pub post : Post
  pub open post use *
  pub community_name : Option String
  pub community_avatar : Option String
  pub like_count : ℕ
  pub comments_count : ℕ
  pub is_liked : Bool

-- `PostView`: the same with its author.
pub record PostView : Type 0 where
  pub stored : PostDb
  pub open stored use *
  pub author_name : String
  pub author_avatar : Option String
  pub is_community_post : Bool

-- The tables, the next value of the identity column of posts, the comments, and the communities with
-- their subscriptions and the ids of `users`.
pub record PostTables : Type 0 where
  pub posts : List PostRow
  pub attachments : List MediaRow
  pub photos : List MediaRow
  pub likes : List Like
  pub next_id : ℕ
  pub comments : List Comment
  pub community : CommunityTables
