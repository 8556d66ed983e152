-- ===== src/Chat/Messages.antt =====
-- `DBMessageStore` of internal/repository/db/message.go, method by method. Logging is left out.
use Prim.Native.String.{len}
use slps_team.Prelude.{ℕ, String, ◌||◌, ltb, List, [], ◌∷◌, Option, none, some, if◌then◌else◌}
use slps_team.Prelude.Int.{ℤ}
use slps_team.Errors.{foreign}
use slps_team.Flow.{Result, ok, err, pure, raise, ◌>>=◌, ◌>>◌}
use slps_team.Paginate.{limit_offset}
use slps_team.Sql.{
  Db, exec, query, result_of, unchecked_rows, result_breaks, wrap_error, begin, commit_tx,
  in_transaction, driver_error,
}
use slps_team.Chat.{MessageRow, Message, ChatTables}
use slps_team.Chat.Text.{is_blank}
use slps_team.Chat.Table.{insert_message, insert_attachment, messages_of, paths_of}
use slps_team.Chat.Store.{Method, undone}

unfoldable pub get_message_attachments : ℕ → Method (List String)
get_message_attachments message_id = do
  paths ← wrap_error "failed to query message attachments" (query λ t. some (paths_of message_id t))
  result_of paths

-- Without its attachments where they cannot be read.
abbrev pub attached :
    MessageRow → Result (List String) × Db ChatTables → Result Message × Db ChatTables
attached m (ok paths, db) = (ok (record { row = m; attachments = paths }), db)
attached m (err e, db) = (ok (record { row = m; attachments = [] }), db)

abbrev pub with_attachments : MessageRow → Option ℕ → Method Message
with_attachments m (some sticker) db = (ok (record { row = m; attachments = [] }), db)
with_attachments m none db = attached m (get_message_attachments m.id db)

-- The loop over the rows.
unfoldable pub load_messages : List MessageRow → Method (List Message)
load_messages [] = pure []
load_messages (m ∷ ms) = do
  message ← with_attachments m m.sticker_id
  rest ← load_messages ms
  pure (message ∷ rest)

unfoldable pub get_messages_by_chat_id : ℕ → ℤ → ℤ → Method (List Message)
get_messages_by_chat_id chat_id limit offset = do
  rows ← query λ t. limit_offset limit offset (messages_of chat_id t)
  broken ← result_breaks
  read ← unchecked_rows rows
  messages ← load_messages read
  if broken then raise driver_error else pure messages

-- `saveMessageAttachmentsTx`, in a transaction that began at `now`; lengths are in bytes.
unfoldable pub save_attachments : ℕ → ℕ → List String → Method (Unit {0})
save_attachments now message_id [] = pure tt
save_attachments now message_id (path ∷ paths) =
    if is_blank path
    then raise (foreign "attachment path cannot be empty")
    else if ltb (len path) 1 || ltb 512 (len path)
    then raise (foreign "attachment path length must be between 1 and 512 characters")
    else (do
      _ ←
          wrap_error "failed to save message attachment"
            (exec λ _ t. insert_attachment message_id path now t)
      save_attachments now message_id paths)

-- `SaveMessageAttachments`: nothing is begun for no attachments.
unfoldable pub save_message_attachments : ℕ → List String → Method (Unit {0})
save_message_attachments message_id [] = pure tt
save_message_attachments message_id (path ∷ paths) = in_transaction undone (do
  now ← wrap_error "failed to begin transaction" begin
  save_attachments now message_id (path ∷ paths)
  wrap_error "failed to commit transaction" commit_tx)

abbrev pub save_unless_sticker : ℕ → ℕ → Option ℕ → List String → Method (Unit {0})
save_unless_sticker now message_id (some sticker) paths = pure tt
save_unless_sticker now message_id none paths =
    wrap_error "failed to save message attachments" (save_attachments now message_id paths)

-- `CreateMessage`, of the fields of its argument. An error leaves nothing of the transaction: where
-- no rollback is called, the end of the request's context rolls it back.
unfoldable pub create_message_row : ℕ → ℕ → String → Option ℕ → List String → Method ℕ
create_message_row author_id chat_id text sticker_id paths = in_transaction undone (do
  now ← wrap_error "failed to begin transaction" begin
  id ←
      wrap_error "failed to create message"
        (exec λ _ t. insert_message author_id chat_id text sticker_id now t)
  save_unless_sticker now id sticker_id paths
  wrap_error "failed to commit transaction" commit_tx
  pure id)
