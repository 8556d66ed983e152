-- ===== src/Chat/Store.antt =====
-- `DBChatStore` of internal/repository/db/chat.go, method by method. Logging is left out.
use slps_team.Prelude.{
  ℕ, Bool, ◌==◌, ltb, any, List, [], ◌∷◌, ◌++◌, map, Option, none, some, if◌then◌else◌,
}
use slps_team.Prelude.Int.{ℤ}
use slps_team.Errors.{Error, foreign, wrapped}
use slps_team.Flow.{ok, Action, pure, raise, ignoring, ◌>>=◌, ◌>>◌}
use slps_team.Paginate.{limit_offset}
use slps_team.Sql.{
  Db, exec, query, result_of, wrap_error, begin, any_row, commit_tx, in_transaction, driver_error,
}
use slps_team.Chat.{ChatRow, MessageRow, ChatTables, FullChat, MemberWithLastReadMessage}
use slps_team.Chat.Table.{
  is_chat, is_member, select_pair, insert_chat, insert_members, update_last_read, with_unread,
  others_of, messages_of, first_of, select_chat, full_chat, chats_of,
}

abbrev pub Method : Type 0 → Type 0
Method A = Action (Db ChatTables) A

-- A rollback does not bring back the identity columns.
abbrev pub undone : ChatTables → ChatTables → ChatTables
undone before t = record before { next_chat = t.next_chat; next_message = t.next_message }

abbrev pub new_chat : ℕ → ℕ → Method ℕ
new_chat a b = do
  id ← wrap_error "failed to create chat" (exec λ now t. insert_chat t)
  _ ← wrap_error "failed to add members" (exec λ now t. insert_members id a b t)
  wrap_error "failed to commit tx" commit_tx
  pure id

abbrev pub found_or_new : ℕ → ℕ → Option ℕ → Method ℕ
found_or_new a b (some id) db = (ok id, ignoring commit_tx db)
found_or_new a b none db = new_chat a b db

-- The smaller id first.
abbrev pub ordered_ids : ℕ → ℕ → ℕ × ℕ
ordered_ids self user = if ltb user self then (user, self) else (self, user)

unfoldable pub get_or_create_chat_row : ℕ → ℕ → Method ℕ
get_or_create_chat_row self user =
    let (a, b) = ordered_ids self user in
    in_transaction undone (do
      _ ← begin
      k ← any_row
      found ← wrap_error "failed to query chat" (query λ t. some (select_pair k a b t))
      found_or_new a b found)

unfoldable pub is_member_of_chat : ℕ → ℕ → Method Bool
is_member_of_chat user_id chat_id = query λ t. some (any (is_member chat_id user_id) t.members)

unfoldable pub is_chat_exist : ℕ → Method Bool
is_chat_exist chat_id = query λ t. some (any (is_chat chat_id) t.chats)

abbrev pub add_once : ℕ → List ℕ → List ℕ
add_once i ids = if any (λ j. j == i) ids then ids else i ∷ ids

abbrev pub add_other : Option ℕ → List ℕ → List ℕ
add_other none ids = ids
add_other (some i) ids = add_once i ids

-- `userIDSet`; its order is that of a Go map, and means nothing.
abbrev pub ids_in : List FullChat → List ℕ
ids_in [] = []
ids_in (c ∷ cs) = add_once c.last_message.author_id (add_other c.user_id_with (ids_in cs))

unfoldable pub get_user_full_chats : ℕ → ℤ → ℤ → Method (List FullChat × List ℕ)
get_user_full_chats user_id limit offset = do
  rows ← wrap_error "query failed" (query λ t. limit_offset limit offset (chats_of user_id t))
  chats ← wrap_error "rows error" (result_of rows)
  pure (chats, ids_in chats)

unfoldable pub get_other_chat_members : ℕ → ℕ → Method (List MemberWithLastReadMessage)
get_other_chat_members user_id chat_id = do
  rows ←
      wrap_error "query failed"
        (query λ t. some (map (with_unread t) (others_of user_id chat_id t)))
  wrap_error "rows error" (result_of rows)

-- `*privateUserID` of a chat of two, for a user that is not a member.
abbrev pub nil_dereference : Error
nil_dereference = foreign "panic"

abbrev pub no_rows : Error
no_rows = foreign "sql"

-- The row of the query, read into its variables; the columns of a missing message are NULL, which
-- the scan refuses.
abbrev pub read_chat : Option ChatRow → Option MessageRow → Option ℕ → Method (FullChat × List ℕ)
read_chat none last user = raise (wrapped "chat not found" no_rows)
read_chat (some c) none user = raise (wrapped "scan failed" driver_error)
read_chat (some c) (some m) (some user_id) = pure (
  full_chat c m (some user_id) 0 0,
  (if c.is_group then [] else user_id ∷ []) ++ m.author_id ∷ [],
)
read_chat (some c) (some m) none =
    if c.is_group then pure (full_chat c m none 0 0, m.author_id ∷ []) else raise nil_dereference

abbrev pub selected_member : ℕ → ℕ → ChatTables → Option ℕ
selected_member user_id chat_id t =
    if any (is_member chat_id user_id) t.members then some user_id else none

unfoldable pub get_full_chat : ℕ → ℕ → Method (FullChat × List ℕ)
get_full_chat user_id chat_id = do
  (chat, last, user) ← wrap_error "scan failed" (
      query λ t. some (
        select_chat chat_id t.chats,
        first_of (messages_of chat_id t),
        selected_member user_id chat_id t,
      ))
  read_chat chat last user

unfoldable pub update_last_read_message_row : ℕ → ℕ → ℕ → Method (Unit {0})
update_last_read_message_row user_id chat_id last_read_message_id = do
  _ ←
      wrap_error "query failed"
        (exec λ now t. update_last_read user_id chat_id last_read_message_id t)
  pure tt
