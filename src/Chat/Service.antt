-- ===== src/Chat/Service.antt =====
-- `ChatService` of internal/service/chat.go, over its two stores and the directory of uploads.
-- Logging is left out.
use slps_team.Prelude.{
  ℕ, String, Bool, not, ◌&&◌, ◌||◌, ◌==◌, List, [], ◌∷◌, map, length, Option, none, some,
  if◌then◌else◌,
}
use slps_team.Errors.{Sentinel}
use slps_team.Flow.{Result, Action, pure, lift, or_return, return_if, ignoring, ◌>>=◌, ◌>>◌}
use slps_team.Paginate.{PaginateQueryParams, validate_pagination_params}
use slps_team.Uploads.{File, Names, upload_files, delete_files}
use slps_team.Backend.{World as BackendWorld, on_db, on_disk, or_clean}
use slps_team.Chat.{
  ChatTables, Message, ShortProfile, FullChat, MemberWithLastReadMessage, MessagesWithAuthors,
}
use slps_team.Chat.Text.{is_blank}
use slps_team.Chat.Table.{nobody}
use slps_team.Chat.Store.{
  get_or_create_chat_row, is_member_of_chat, is_chat_exist, get_user_full_chats,
  get_other_chat_members, get_full_chat, update_last_read_message_row, add_once,
}
use slps_team.Chat.Messages.{get_messages_by_chat_id, create_message_row}

abbrev pub World : Type 0
World = BackendWorld ChatTables

abbrev pub Call : Type 0 → Type 0
Call A = Action World A

-- The clients for users and profiles.
pub record Clients : Type 0 where
  pub is_user_exists : ℕ → Result Bool
  pub short_profile_map : List ℕ → Result (ℕ → Option ShortProfile)

-- `validateMessageContent`, here whether the message is refused.
unfoldable pub is_refused : String → List File → Option ℕ → Bool
is_refused text files (some sticker) = not (is_blank text) || not (length files == 0)
is_refused text files none = is_blank text && length files == 0

-- A key that the map has not gives a profile with no name and no avatar.
abbrev pub profile_of : (ℕ → Option ShortProfile) → ℕ → ShortProfile
profile_of profiles id = elim (profiles id) [ none ↦ nobody | some p ↦ p ]

abbrev pub named_after : ShortProfile → FullChat → FullChat
named_after p chat = record chat { avatar_path = p.avatar_path; name = some p.full_name }

abbrev pub named_for : (ℕ → Option ShortProfile) → Option ℕ → FullChat → FullChat
named_for profiles none chat = chat
named_for profiles (some id) chat = named_after (profile_of profiles id) chat

-- The profiles that a chat shows: a chat of two has the name and the avatar of the other user.
abbrev pub with_profiles : (ℕ → Option ShortProfile) → FullChat → FullChat
with_profiles profiles chat =
    let named : FullChat =
      if chat.is_group then chat else named_for profiles chat.user_id_with chat in
    record named { last_message_author = profile_of profiles chat.last_message.author_id }

abbrev pub authors_of : List Message → List ℕ
authors_of [] = []
authors_of (m ∷ ms) = add_once m.author_id (authors_of ms)

-- `chat.LastReadMessageID = …; chat.UnreadCounts = …`
abbrev pub addressed : FullChat → MemberWithLastReadMessage → ℕ × FullChat
addressed chat r = (
  r.member_id,
  record chat { last_read_message_id = r.last_read_message_id; unread_counts = r.unread_counts },
)

-- `UploadFiles` where there are files and no sticker.
abbrev pub upload_attachments : Names → List File → Option ℕ → Call (List String)
upload_attachments names [] sticker_id = pure []
upload_attachments names (f ∷ fs) (some sticker) = pure []
upload_attachments names (f ∷ fs) none = on_disk (upload_files names (f ∷ fs))

unfoldable pub delete_attachments : List String → World → World
delete_attachments paths w = record w {
  disk = ignoring (delete_files (map (λ path. some path) paths)) w.disk;
}

module _ (c : Clients) where
  unfoldable pub get_or_create_chat : ℕ → ℕ → Call ℕ
  get_or_create_chat self_user_id user_id = do
    exists ← or_return Sentinel.db (lift (c.is_user_exists user_id))
    return_if (not exists) Sentinel.not_exist
    return_if (user_id == self_user_id) Sentinel.invalid_input
    or_return Sentinel.db (on_db (get_or_create_chat_row self_user_id user_id))

  unfoldable pub get_messages : PaginateQueryParams → ℕ → ℕ → Call MessagesWithAuthors
  get_messages params user_id chat_id =
      let (offset, limit) = validate_pagination_params params in
      (do
        is_member ← or_return Sentinel.db (on_db (is_member_of_chat user_id chat_id))
        return_if (not is_member) Sentinel.access_denied
        messages ← or_return Sentinel.db (on_db (get_messages_by_chat_id chat_id limit offset))
        authors ← or_return Sentinel.db (lift (c.short_profile_map (authors_of messages)))
        pure (record { messages = messages; authors = authors }))

  -- An error of the profile service is passed on as it is.
  unfoldable pub get_user_chats : ℕ → PaginateQueryParams → Call (List FullChat)
  get_user_chats user_id params =
      let (offset, limit) = validate_pagination_params params in
      (do
        (chats, user_ids) ← or_return Sentinel.db (on_db (get_user_full_chats user_id limit offset))
        profiles ← lift (c.short_profile_map user_ids)
        pure (map (with_profiles profiles) chats))

  -- What the goroutine of `CreateMessage` sends, with the receivers, as "new_message"; after an error
  -- it sends nothing.
  unfoldable pub new_message_sends : ℕ → ℕ → Call (List (ℕ × FullChat))
  new_message_sends user_id chat_id = do
    (chat, user_ids) ← on_db (get_full_chat user_id chat_id)
    profiles ← lift (c.short_profile_map user_ids)
    recipients ← on_db (get_other_chat_members user_id chat_id)
    pure (map (addressed (with_profiles profiles chat)) recipients)

-- `CreateMessage` up to the start of its goroutine.
unfoldable pub create_message : Names → ℕ → ℕ → String → List File → Option ℕ → Call ℕ
create_message names user_id chat_id text files sticker_id = do
  return_if (is_refused text files sticker_id) Sentinel.invalid_input
  exists ← or_return Sentinel.db (on_db (is_chat_exist chat_id))
  return_if (not exists) Sentinel.not_found
  is_member ← or_return Sentinel.db (on_db (is_member_of_chat user_id chat_id))
  return_if (not is_member) Sentinel.access_denied
  paths ← or_return Sentinel.service (upload_attachments names files sticker_id)
  or_clean (delete_attachments paths) Sentinel.db
      (on_db (create_message_row user_id chat_id text sticker_id paths))

unfoldable pub update_last_read_message : ℕ → ℕ → ℕ → Call (Unit {0})
update_last_read_message user_id chat_id last_read_message_id =
    or_return Sentinel.db
      (on_db (update_last_read_message_row user_id chat_id last_read_message_id))
