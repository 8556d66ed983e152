-- ===== src/Chat/Tests.antt =====
-- Runs of the chat service, and each theorem at an input that meets its hypotheses.
use slps_team.Prelude.{ℕ, ◌≡◌, refl, true, false, any, [], ◌∷◌, none, arith}
use slps_team.Errors.{Sentinel, sentinel}
use slps_team.Flow.{ok, err}
use slps_team.Sql.Calm.{calm, calm-IsCalm}
use slps_team.Uploads.{File, Names}
use slps_team.Backend.{on_db}
use slps_team.Chat.Text.{is_blank}
use slps_team.Chat.Table.{is_member}
use slps_team.Chat.Store.{is_chat_exist, is_member_of_chat}
use slps_team.Chat.Service.{
  World, Clients, is_refused, create_message, get_or_create_chat, update_last_read_message,
}
use slps_team.Chat.Posting.{IsOutcome, create_message-IsOutcome}
use slps_team.Chat.Pairs.{get_or_create_chat-again}
use slps_team.Chat.Unread.{HasAdvanced, update_last_read_message-HasAdvanced}

abbrev one_name : Names
one_name = record {
  uuid = λ n. "8f14e45f-ceea-467f-a0b1-9d4c1f3a5b60";
  ext = λ s. ".png";
  uuid_length = λ n. refl;
}

abbrev plain : Clients
plain = record { is_user_exists = λ u. ok true; short_profile_map = λ ids. ok (λ i. none) }

-- Users 1 and 2 have a chat with one message, which user 2 has not read.
abbrev start : World
start = record {
  db = record {
    tables = record {
      chats = record { id = 1; is_group = false; name = none; avatar = none } ∷ [];
      members =
          record { chat_id = 1; member_id = 1; last_read_message_id = 1 }
          ∷ record { chat_id = 1; member_id = 2; last_read_message_id = 0 }
          ∷ [];
      messages =
          record {
            id = 1;
            author_id = 1;
            chat_id = 1;
            text = "hello";
            sticker_id = none;
            created_at = 0;
          }
          ∷ [];
      attachments = [];
      next_chat = 2;
      next_message = 2;
      users = 1 ∷ 2 ∷ 3 ∷ [];
      stickers = [];
    };
    statements = 0;
    env = calm;
  };
  disk = record {
    files = λ n. none;
    drawn = 0;
    write_fails = λ n. false;
    torn = λ n. none;
    remove_fails = λ n. false;
  };
}

abbrev picture : File
picture = record { filename = "cat.png"; content = "cat" }

create_message-IsOutcome_example :
    IsOutcome one_name 1 1 "look"
      (picture ∷ [])
      none
      start
      (create_message one_name 1 1 "look" (picture ∷ []) none start)
create_message-IsOutcome_example =
    create_message-IsOutcome one_name 1 1 "look" (picture ∷ []) none start

abbrev after_post : World
after_post = (create_message one_name 1 1 "look" (picture ∷ []) none start).1

get_or_create_chat-again_example :
    (id : ℕ) × (w' : World) × (get_or_create_chat plain 3 1 start ≡ (ok id, w'))
    × (any (is_member id 3) w'.db.tables.members ≡ true)
    × (any (is_member id 1) w'.db.tables.members ≡ true)
    × ((get_or_create_chat plain 3 1 w').0 ≡ ok id)
    × ((get_or_create_chat plain 3 1 w').1.db.tables ≡ w'.db.tables)
    × ((get_or_create_chat plain 1 3 w').0 ≡ ok id)
    × ((get_or_create_chat plain 1 3 w').1.db.tables ≡ w'.db.tables)
get_or_create_chat-again_example =
    get_or_create_chat-again plain 3 1 start refl calm-IsCalm
      (record {
        first_exists = refl;
        second_exists = refl;
        first_known = refl;
        second_known = refl;
      })
      (record { keys = refl; made = refl }) λ i j e f. absurd (ground (arith, e))

update_last_read_message-HasAdvanced_example :
    let w' = (update_last_read_message 2 1 1 start).1 in
    HasAdvanced 2 1 start.db.tables.messages start.db.tables.members w'.db.tables.members
    × (w'.db.tables.messages ≡ start.db.tables.messages)
update_last_read_message-HasAdvanced_example = update_last_read_message-HasAdvanced 2 1 1 start

-- An empty message is refused, and a user that is not a member.
refusals :
    ((create_message one_name 1 1 "  " [] none start).0 ≡ err (sentinel Sentinel.invalid_input))
    × ((create_message one_name 3 1 "hi" [] none start).0 ≡ err (sentinel Sentinel.access_denied))
unfolding create_message is_refused is_blank is_chat_exist is_member_of_chat on_db
refusals = (refl, refl)
