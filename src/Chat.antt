-- ===== src/Chat.antt =====
-- Chats and messages: domain/chat.go and domain/message.go, and the tables chats, chat_members,
-- messages and attachments of db/migrations/20251008113339_init_db.up.sql.
pub mod Text
pub mod Table
pub mod Store
pub mod Messages
pub mod Service
pub mod Inserts
pub mod Posting
pub mod Keys
pub mod Pairs
pub mod Notice
pub mod Unread
mod Tests
use slps_team.Prelude.{ℕ, String, Bool, List, Option}

-- A row of chats.
pub record ChatRow : Type 0 where
  pub id : ℕ
  pub is_group : Bool
  pub name : Option String
  pub avatar : Option String

-- A row of chat_members; the id of the last message that was read is 0 at first.
pub record MemberRow : Type 0 where
  pub chat_id : ℕ
  pub member_id : ℕ
  pub last_read_message_id : ℕ

-- A row of messages.
pub record MessageRow : Type 0 where
  pub id : ℕ
  pub author_id : ℕ
  pub chat_id : ℕ
  pub text : String
  pub sticker_id : Option ℕ
  pub created_at : ℕ

-- A row of attachments whose object is a message.
pub record AttachmentRow : Type 0 where
  pub obj_id : ℕ
  pub file_path : String
  pub created_at : ℕ

-- The tables, the next values of the identity columns, and the ids of `users` and `stickers`.
pub record ChatTables : Type 0 where
  pub chats : List ChatRow
  pub members : List MemberRow
  pub messages : List MessageRow
  pub attachments : List AttachmentRow
  pub next_chat : ℕ
  pub next_message : ℕ
  pub users : List ℕ
  pub stickers : List ℕ

-- `Message`: a row with the paths of its attachments.
pub record Message : Type 0 where
  pub row : MessageRow
  pub open row use *
  pub attachments : List String

pub record ShortProfile : Type 0 where
  pub full_name : String
  pub avatar_path : Option String

-- `FullChat`: of the last message, the store reads the id, the text, the time and the author.
pub record FullChat : Type 0 where
  pub id : ℕ
  pub is_group : Bool
  pub user_id_with : Option ℕ
  pub avatar_path : Option String
  pub name : Option String
  pub last_message : MessageRow
  pub last_message_author : ShortProfile
  pub last_read_message_id : ℕ
  pub unread_counts : ℕ

pub record MemberWithLastReadMessage : Type 0 where
  pub member_id : ℕ
  pub last_read_message_id : ℕ
  pub unread_counts : ℕ

pub record MessagesWithAuthors : Type 0 where
  pub messages : List Message
  pub authors : ℕ → Option ShortProfile
