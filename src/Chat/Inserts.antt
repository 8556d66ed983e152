-- ===== src/Chat/Inserts.antt =====
-- What `CreateMessage` of the store leaves in the tables, in any environment.
use Prim.Native.String.{len}
use slps_team.Prelude.{
  ℕ, suc, String, ap, sym, ◌∙◌, ◌≡◌, arith, ◌||◌, ltb, List, [], ◌∷◌, ◌++◌, map, Option, none, some,
}
use mathlib.Core.List.{append_assoc, append-nil}
use slps_team.Sql.{Db}
use slps_team.Sql.Success.{
  Ensures, Ensures-bind, Ensures-wrap_error, Ensures-if, Ensures-pure, Ensures-raise, Ensures-exec,
  Ensures-in_transaction,
}
use slps_team.Sql.Success.{Fails, Fails-in_transaction}
use slps_team.Chat.{AttachmentRow, ChatTables}
use slps_team.Chat.Text.{is_blank}
use slps_team.Chat.Table.{insert_message, insert_attachment}
use slps_team.Chat.Store.{undone}
use slps_team.Chat.Messages.{save_attachments, save_unless_sticker, create_message_row}

abbrev pub attachments_at : ℕ → ℕ → List String → List AttachmentRow
attachments_at now id paths =
    map (λ (path : String). record { obj_id = id; file_path = path; created_at = now }) paths

abbrev pub with_attachments_at : ℕ → ℕ → List String → ChatTables → ChatTables
with_attachments_at now id paths t = record t {
  attachments = t.attachments ++ attachments_at now id paths;
}

-- The paths that a message with this sticker keeps.
abbrev pub kept_paths : Option ℕ → List String → List String
kept_paths none paths = paths
kept_paths (some sticker) paths = []

-- The tables with a new message and its attachments.
abbrev pub posted : ℕ → ℕ → String → Option ℕ → List String → ℕ → ChatTables → ChatTables
posted author_id chat_id text sticker_id paths now t = record t {
  messages =
      record {
        id = t.next_message;
        author_id = author_id;
        chat_id = chat_id;
        text = text;
        sticker_id = sticker_id;
        created_at = now;
      }
      ∷ t.messages;
  attachments = t.attachments ++ attachments_at now t.next_message (kept_paths sticker_id paths);
  next_message = suc t.next_message;
}

insert_attachment_ran :
    (id : ℕ) (path : String) (now : ℕ) (t : ChatTables) (n : ℕ) (t' : ChatTables)
    → insert_attachment id path now t ≡ some (n, t')
    → t' ≡ with_attachments_at now id (path ∷ []) t
unfolding insert_attachment
insert_attachment_ran id path now t n t' e = ground (arith, e)

save_attachments-Ensures :
    (now id : ℕ) (paths : List String) (db : Db ChatTables)
    → Ensures
        (save_attachments now id paths)
        db
        (λ _ db'. db'.tables ≡ with_attachments_at now id paths db.tables)
unfolding save_attachments
save_attachments-Ensures now id [] db = Ensures-pure db tt (
    ap (λ (xs : List AttachmentRow). record (db.tables) { attachments = xs })
      (sym (append-nil db.tables.attachments)))
save_attachments-Ensures now id (path ∷ paths) db =
    Ensures-if db (is_blank path) _ _ (λ _. Ensures-raise db _)
      λ _.
        Ensures-if db (ltb (len path) 1 || ltb 512 (len path)) _ _ (λ _. Ensures-raise db _)
          λ _.
            Ensures-bind _ _ db
              (Ensures-wrap_error db "failed to save message attachment" _
                (Ensures-exec db λ _ t. insert_attachment id path now t))
              λ n db1 first.
                let wrote : db1.tables ≡ with_attachments_at now id (path ∷ []) db.tables =
                  insert_attachment_ran id path now db.tables n db1.tables first in
                record {
                  at = λ u db' e.
                      (save_attachments-Ensures now id paths db1).at u db' e
                      ∙ ap (with_attachments_at now id paths) wrote
                      ∙ ap (λ (xs : List AttachmentRow). record (db.tables) { attachments = xs })
                          (append_assoc db.tables.attachments (attachments_at now id (path ∷ []))
                            (attachments_at now id paths));
                }

module _ (author_id chat_id : ℕ) (text : String) (sticker_id : Option ℕ) (paths : List String) where
  save_unless_sticker-Ensures :
      (now id : ℕ) (db : Db ChatTables)
      → Ensures
          (save_unless_sticker now id sticker_id paths)
          db
          (λ _ db'. db'.tables ≡ with_attachments_at now id (kept_paths sticker_id paths) db.tables)
  save_unless_sticker-Ensures now id db = by_sticker sticker_id
    where
      by_sticker :
          (o : Option ℕ)
          → Ensures
              (save_unless_sticker now id o paths)
              db
              (λ _ db'. db'.tables ≡ with_attachments_at now id (kept_paths o paths) db.tables)
      by_sticker none =
          Ensures-wrap_error db "failed to save message attachments" _
            (save_attachments-Ensures now id paths db)
      by_sticker (some s) = Ensures-pure db tt (
          ap (λ (xs : List AttachmentRow). record (db.tables) { attachments = xs })
            (sym (append-nil db.tables.attachments)))

  abbrev pub IsPosted : ChatTables → ℕ → ChatTables → Type 0
  IsPosted t id t' =
      (id ≡ t.next_message)
      × (now : ℕ) × (t' ≡ posted author_id chat_id text sticker_id paths now t)

  insert_message_ran :
      (now : ℕ) (t : ChatTables) (id : ℕ) (t' : ChatTables)
      → insert_message author_id chat_id text sticker_id now t ≡ some (id, t')
      → (id ≡ t.next_message)
        × (with_attachments_at now id (kept_paths sticker_id paths) t'
            ≡ posted author_id chat_id text sticker_id paths now t)
  unfolding insert_message
  insert_message_ran now t id t' e = (ground (arith, e), ground (arith, e))

  pub create_message_row-Ensures :
      (db : Db ChatTables)
      → Ensures
          (create_message_row author_id chat_id text sticker_id paths)
          db
          (λ id db'. IsPosted db.tables id db'.tables)
  unfolding create_message_row
  create_message_row-Ensures db = Ensures-in_transaction db undone _ (
      Ensures-bind _ _ db
        (Ensures-wrap_error db "failed to begin transaction" _
          (Ensures-exec db λ now t. some (now, t)))
        λ now db1 began.
          Ensures-bind _ _ db1
            (Ensures-wrap_error db1 "failed to create message" _
              (Ensures-exec db1 λ _ t. insert_message author_id chat_id text sticker_id now t))
            λ id db2 wrote.
              Ensures-bind _ _ db2 (save_unless_sticker-Ensures now id db2) λ _ db3 saved.
                Ensures-bind _ _ db3
                  (Ensures-wrap_error db3 "failed to commit transaction" _
                    (Ensures-exec db3 λ now t. some (tt, t)))
                  λ _ db4 done. Ensures-pure db4 id (
                    let ran = insert_message_ran now db1.tables id db2.tables wrote in
                    let first : db1.tables ≡ db.tables = ground (arith, began) in
                    let last : db4.tables ≡ db3.tables = ground (arith, done) in
                    (
                      ran.0 ∙ ap (λ (t : ChatTables). t.next_message) first,
                      now,
                      last
                          ∙ saved
                          ∙ ran.1
                          ∙ ap (posted author_id chat_id text sticker_id paths now) first,
                    )))

  pub create_message_row-Fails :
      (db : Db ChatTables)
      → Fails
          (create_message_row author_id chat_id text sticker_id paths)
          db
          (λ db'. (t : ChatTables) × (db'.tables ≡ undone db.tables t))
  unfolding create_message_row
  create_message_row-Fails db = Fails-in_transaction undone _ db
