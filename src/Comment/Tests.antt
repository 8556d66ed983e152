-- ===== src/Comment/Tests.antt =====
-- Runs of the comment service, and the theorem at an input that meets its hypotheses.
use slps_team.Prelude.{◌≡◌, refl, true, false, List, [], ◌∷◌, none}
use slps_team.Flow.{ok}
use slps_team.Sql.{Db}
use slps_team.Post.{PostTables}
use slps_team.Post.Store.{get_post_by_id, with_media, get_media}
use slps_team.Comment.{Comment, CommentTables}
use slps_team.Comment.Table.{fits_length, insert_comment, update_comments, delete_comments, cascade}
use slps_team.Comment.Store.{
  create_comment_row, get_comment_by_id, update_comment_row, delete_comment_row,
}
use slps_team.Comment.Service.{
  Clients, create_comment, update_comment, delete_comment, enrich_comment,
}
use slps_team.Comment.Authors.{
  creates, updates, deletes, Asked, perform, run_comments, run_comments-IsKept,
}
use slps_team.Comment.Rows.{IsKept}

abbrev plain : Clients
plain = record {
  valid_creation = λ req. true;
  valid_text = λ text. true;
  short_profile_map = λ ids. ok (λ i. none);
}

-- Post 7, of user 2.
abbrev stored_posts : PostTables
stored_posts = record {
  posts =
      record {
        id = 7;
        author_id = 2;
        text = "news";
        community_id = none;
        created_at = 0;
        updated_at = 0;
      }
      ∷ [];
  attachments = [];
  photos = [];
  likes = [];
  next_id = 8;
  comments = [];
  community = record { communities = []; subscriptions = []; next_id = 1; users = 1 ∷ 2 ∷ [] };
}

abbrev hello : Comment
hello = record {
  id = 1;
  post_id = 7;
  author_id = 2;
  parent_id = none;
  text = "hello";
  created_at = 0;
  updated_at = 0;
}

abbrev start : Db CommentTables
start = record {
  tables = record { comments = hello ∷ []; next_id = 2; posts = 7 ∷ []; users = 1 ∷ 2 ∷ [] };
  statements = 0;
  env = record {
    fails = λ n. false;
    result_fails = λ n. false;
    rows_read = λ n. 0;
    pick = λ n. 0;
    time = λ n. n;
  };
}

-- User 1 writes a comment, and tries to change and to delete the other one.
abbrev requests : List Asked
requests =
    record { caller = 1; request = creates (record { post_id = 7; text = "so?" }) }
    ∷ record { caller = 1; request = updates 1 "bye" }
    ∷ record { caller = 1; request = deletes 1 }
    ∷ record { caller = 1; request = deletes 2 }
    ∷ []

run_comments-IsKept_example :
    IsKept 2 (hello ∷ []) (run_comments plain stored_posts requests start).tables
run_comments-IsKept_example =
    run_comments-IsKept plain stored_posts 2 (hello ∷ []) requests start
      (record { theirs = refl; ids = refl; plain = refl }) refl

deleted_own : (run_comments plain stored_posts requests start).tables.comments ≡ hello ∷ []
unfolding run_comments perform create_comment update_comment delete_comment enrich_comment
    create_comment_row get_comment_by_id update_comment_row delete_comment_row insert_comment
    update_comments delete_comments cascade fits_length get_post_by_id with_media get_media
deleted_own = refl
