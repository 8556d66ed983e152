-- ===== src/Post/Tests.antt =====
-- Runs of the post service, and each theorem at an input that meets its hypotheses.
use slps_team.Prelude.{ℕ, String, ◌≡◌, refl, true, false, ◌==◌, arith, List, [], ◌∷◌, none, some}
use slps_team.Errors.{Sentinel, sentinel, wrapped}
use slps_team.Sql.{driver_error}
use slps_team.Flow.{ok, err, ◌>>◌}
use slps_team.Flow.Meets.{Lands}
use slps_team.Sql.Calm.{calm, calm-IsCalm}
use slps_team.Uploads.{File, Names, Disk, upload_file, upload_rest, upload_files}
use slps_team.Backend.{on_db, on_disk}
use slps_team.Community.{CommunityRow}
use slps_team.Community.Store.{get_community_by_id}
use slps_team.Chat.Text.{is_blank}
use slps_team.Post.{PostRow, Post, PostDb, PostView}
use slps_team.Post.Table.{
  fits_length, fits_path, insert_post, insert_media, update_posts, toggle_likes, joined,
}
use slps_team.Post.Store.{
  get_media, with_media, get_post_by_id, save_media, create_post_row, update_post_row,
  update_like_row,
}
use slps_team.Post.Service.{
  Clients, World, existing_post, stored_community, may_post_in, delete_paths, upload_any,
  create_post, update_post, delete_post, update_like, get_post,
}
use slps_team.Post.Rows.{IsKept}
use slps_team.Post.Requests.{creates, updates, deletes, likes, Asked, perform, run_posts}
use slps_team.Post.Authors.{run_posts-IsKept}
use slps_team.Post.Refusals.{IsRefused, others_post-IsRefused}
use slps_team.Post.Rightful.{IsRightful, run_posts-IsRightful}
use slps_team.Post.Likes.{liked, IsTurned, update_like-IsTurned, update_like-twice}
use slps_team.Post.Posting.Rows.{Back}
use slps_team.Post.Posting.{IsAccepted, create_post-IsOutcome}
use slps_team.Post.Strands.{update_post-strands}
use slps_team.Post.Reading.{IsNew, create_post-get_post}

abbrev one_name : Names
one_name = record {
  uuid = λ n. "8f14e45f-ceea-467f-a0b1-9d4c1f3a5b60";
  ext = λ s. ".png";
  uuid_length = λ n. refl;
}

abbrev plain : Clients
plain = record {
  valid_text = λ text. true;
  is_user_exists = λ u. ok true;
  short_profile_map = λ ids. ok (λ i. none);
}

abbrev chess : CommunityRow
chess = record {
  id = 1;
  name = "chess";
  description = "";
  creator_id = 2;
  avatar_path = none;
  cover_path = none;
  created_at = 5;
  updated_at = 5;
}

abbrev opening : PostRow
opening = record {
  id = 7;
  author_id = 2;
  community_id = some 1;
  text = "e4";
  created_at = 6;
  updated_at = 6;
}

-- User 2 has a community, and a post in it with a photo.
abbrev start : World
start = record {
  db = record {
    tables = record {
      posts = opening ∷ [];
      attachments = [];
      photos = record { post_id = 7; file_path = "board.png"; created_at = 6 } ∷ [];
      likes = record { post_id = 7; user_id = 3; created_at = 8 } ∷ [];
      next_id = 8;
      comments = [];
      community = record {
        communities = chess ∷ [];
        subscriptions = [];
        next_id = 2;
        users = 1 ∷ 2 ∷ 3 ∷ [];
      };
    };
    statements = 0;
    env = calm;
  };
  disk = record {
    files = λ n. none;
    drawn = 0;
    write_fails = λ n. false;
    torn = λ n. none;
    remove_fails = λ n. false;
  };
}

abbrev picture : File
picture = record { filename = "cat.png"; content = "cat" }

abbrev stored_name : List String
stored_name = "8f14e45f-ceea-467f-a0b1-9d4c1f3a5b60.png" ∷ []

-- User 1 tries to change and to delete the post, to post in the community, and likes the post.
abbrev requests : List Asked
requests =
    record { caller = 1; request = updates 7 "d4" [] [] }
    ∷ record { caller = 1; request = deletes 7 }
    ∷ record { caller = 1; request = creates "spam" (some 1) [] [] }
    ∷ record { caller = 1; request = creates "mine" none [] (picture ∷ []) }
    ∷ record { caller = 1; request = likes 7 }
    ∷ []

abbrev theirs : List Post
theirs = record { row = opening; attachments = []; photos = "board.png" ∷ [] } ∷ []

others_post-IsRefused_example :
    IsRefused start (delete_post 7 1 start)
    × IsRefused start (update_post plain one_name 7 1 "x" (picture ∷ []) [] start)
others_post-IsRefused_example =
    others_post-IsRefused plain one_name 1 7 "x" (picture ∷ []) [] start opening refl refl

run_posts-IsKept_example : IsKept 2 theirs (run_posts plain one_name requests start).db.tables
run_posts-IsKept_example =
    run_posts-IsKept plain one_name 2 theirs requests start
      (record { theirs = refl; ids = refl; below = refl }) refl

run_posts-IsRightful_example :
    IsRightful (chess ∷ []) (run_posts plain one_name requests start).db.tables
run_posts-IsRightful_example =
    run_posts-IsRightful plain one_name (chess ∷ []) requests start (refl, refl)

update_like-IsTurned_example :
    (w' : World) × (update_like 3 7 start ≡ (ok tt, w'))
    × IsTurned 7 3 start.db.tables w'.db.tables
    × (w'.disk ≡ start.disk)
    × (w'.db.env ≡ start.db.env)
update_like-IsTurned_example = update_like-IsTurned 7 3 start calm-IsCalm refl refl refl

update_like-twice_example :
    (w' : World) × ((update_like 1 7 >> update_like 1 7) start ≡ (ok tt, w'))
    × (w'.db.tables ≡ record (start.db.tables) { likes = w'.db.tables.likes })
    × (w'.disk ≡ start.disk)
    × ((p u : ℕ) → liked p u w'.db.tables ≡ liked p u start.db.tables)
    × ((v : ℕ) (row : PostRow) → joined v w'.db.tables row ≡ joined v start.db.tables row)
update_like-twice_example = update_like-twice 7 1 start calm-IsCalm refl refl refl

create_post-IsOutcome_example :
    Lands
      (IsAccepted plain one_name 2 "d4" (some 1) [] (picture ∷ []) start)
      (λ (v : World). Back start.db.tables v.db.tables)
      (create_post plain one_name 2 "d4" (some 1) [] (picture ∷ []) start)
create_post-IsOutcome_example =
    create_post-IsOutcome plain one_name 2 "d4" (some 1) [] (picture ∷ []) start

abbrev reply : PostRow
reply = record {
  id = 8;
  author_id = 2;
  community_id = some 1;
  text = "d4";
  created_at = 1;
  updated_at = 1;
}

abbrev new_post : Post
new_post = record { row = reply; attachments = []; photos = stored_name }

abbrev after_reply : World
after_reply = (create_post plain one_name 2 "d4" (some 1) [] (picture ∷ []) start).1

create_post-get_post_example :
    (view : PostView) × (w'' : World) × (get_post plain 3 8 after_reply ≡ (ok view, w''))
    × IsNew new_post view
    × (new_post.text ≡ "d4")
    × (new_post.community_id ≡ some 1)
    × (new_post.author_id ≡ 2)
unfolding create_post upload_any upload_files upload_rest upload_file on_disk may_post_in
    stored_community on_db get_community_by_id create_post_row insert_post save_media insert_media
    fits_length fits_path is_blank
create_post-get_post_example =
    create_post-get_post plain one_name 2 3 "d4" (some 1) [] (picture ∷ []) start new_post
      after_reply (λ i. none)
      (record { attachments = refl; photos = refl; likes = refl; comments = refl }) refl calm-IsCalm
      refl

abbrev with_picture : Disk
with_picture = (upload_files one_name (picture ∷ []) start.disk).1

-- The post has an attachment, and the update of its row fails.
abbrev failing : World
failing = record start {
  db = record (start.db) {
    tables = record (start.db.tables) {
      attachments = record { post_id = 7; file_path = "moves.txt"; created_at = 6 } ∷ [];
    };
    env = record calm { fails = λ n. n == 4 };
  };
}

abbrev found_post : PostDb
found_post = record {
  post = record { row = opening; attachments = "moves.txt" ∷ []; photos = "board.png" ∷ [] };
  community_name = some "chess";
  community_avatar = none;
  like_count = 1;
  comments_count = 0;
  is_liked = false;
}

update_post-strands_example : update_post plain one_name 7 2 "d4" (picture ∷ []) [] failing ≡ (
  err (sentinel Sentinel.db),
  record { db = record (failing.db) { statements = 5 }; disk = with_picture },
)
unfolding get_post_by_id with_media get_media update_post_row update_posts upload_files upload_rest
    upload_file
update_post-strands_example =
    update_post-strands plain one_name 2 7 "d4" picture [] failing found_post
      (record (failing.db) { statements = 3 }) (record (failing.db) { statements = 5 }) stored_name
      with_picture (wrapped "failed to update post" driver_error) refl refl refl refl (omega arith)
      refl

-- User 1 has changed nothing of user 2, and has one post.
posts_after :
    (run_posts plain one_name requests start).db.tables.posts
    ≡ record {
      id = 8;
      author_id = 1;
      community_id = none;
      text = "mine";
      created_at = 7;
      updated_at = 7;
    }
      ∷ opening
      ∷ []
unfolding run_posts perform create_post update_post delete_post update_like existing_post
    get_post_by_id with_media get_media upload_any upload_files upload_rest upload_file on_disk
    on_db may_post_in stored_community get_community_by_id create_post_row insert_post save_media
    insert_media fits_length fits_path is_blank delete_paths update_like_row toggle_likes
posts_after = refl
