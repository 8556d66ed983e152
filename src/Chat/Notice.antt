-- ===== src/Chat/Notice.antt =====
-- What the goroutine of `CreateMessage` sends after a message was posted.
use slps_team.Prelude.{ℕ, suc, String, List, [], ◌∷◌, ◌++◌, Option, none, some, Bool, if◌then◌else◌}
use slps_team.Sql.{Db}
use slps_team.Sql.Calm.{IsCalm}
use slps_team.Chat.{ChatRow, MemberRow, MessageRow, ChatTables, ShortProfile, FullChat}
use slps_team.Chat.Table.{unread}
use slps_team.Chat.Service.{profile_of}

module _ (user_id chat_id : ℕ) (db : Db ChatTables) (calm : IsCalm db.env) where
  abbrev next : Db ChatTables
  next = record db { statements = suc db.statements }

  -- The ids whose profiles are asked for.
  abbrev shown : ChatRow → MessageRow → List ℕ
  shown c m = (if c.is_group then [] else user_id ∷ []) ++ m.author_id ∷ []

-- The receiver of a send, and the number of unread messages that it shows.
abbrev pub shows : ℕ × FullChat → ℕ × ℕ
shows (member_id, chat) = (member_id, chat.unread_counts)

-- What a send shows of the chat itself.
pub record Face : Type 0 where
  pub id : ℕ
  pub is_group : Bool
  pub user_id_with : Option ℕ
  pub name : Option String
  pub avatar_path : Option String
  pub last_message : MessageRow

abbrev pub face_of : ℕ × FullChat → Face
face_of (member_id, chat) = record {
  id = chat.id;
  is_group = chat.is_group;
  user_id_with = chat.user_id_with;
  name = chat.name;
  avatar_path = chat.avatar_path;
  last_message = chat.last_message;
}

-- A group as its row is, and a chat of two under the name and the avatar of the sender.
abbrev pub expected_face : ℕ → ℕ → ChatRow → MessageRow → (ℕ → Option ShortProfile) → Face
expected_face user_id chat_id row m profiles =
    let sender = profile_of profiles user_id in
    record {
      id = chat_id;
      is_group = row.is_group;
      user_id_with = if row.is_group then none else some user_id;
      name = if row.is_group then row.name else some sender.full_name;
      avatar_path = if row.is_group then row.avatar else sender.avatar_path;
      last_message = record m { sticker_id = none };
    }

-- A member, and the number of the messages that it has not read.
abbrev pub unread_of : List MessageRow → MemberRow → ℕ × ℕ
unread_of messages m = (m.member_id, unread m messages)

abbrev pub one_more : List MessageRow → MemberRow → ℕ × ℕ
one_more messages m = (m.member_id, suc (unread m messages))
