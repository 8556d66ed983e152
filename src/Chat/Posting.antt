-- ===== src/Chat/Posting.antt =====
-- What `CreateMessage` leaves in the tables, in any environment.
use slps_team.Prelude.{
  ℕ, String, ap, sym, subst, ◌∙◌, ◌≡◌, refl, true, false, not, List, [], ◌∷◌, any, Option, none,
  some,
}
use slps_team.Errors.{Sentinel}
use slps_team.Flow.{Result, ok, err, or_return, ◌>>=◌}
use slps_team.Sql.{Db}
use slps_team.Sql.Success.{Ensures, Ensures-bind, Ensures-on_error, Ensures-return_if, Ensures-pure}
use slps_team.Flow.Keeps.{Keeps-pure, Keeps-return_if, Keeps-on_error}
use slps_team.Sql.Keeps.{Preserves-query}
use slps_team.Sql.Success.{Fails, Fails-after}
use slps_team.Uploads.{File, Names, Disk, upload_files}
use slps_team.Backend.{on_db, or_clean}
use slps_team.Backend.Keeps.{Held, Spares, Held-on_db, Held-on_disk}
use slps_team.Backend.Success.{
  IsSame, Ensures-asked, Ensures-on_db, Ensures-on_disk, Ensures-or_clean, Fails-on_db,
  Fails-or_clean,
}
use slps_team.Chat.Service.{
  World, is_refused, upload_attachments, delete_attachments, create_message,
}
use slps_team.Chat.{ChatTables}
use slps_team.Chat.Table.{is_chat, is_member}
use slps_team.Chat.Inserts.{IsPosted, create_message_row-Ensures, create_message_row-Fails}
use slps_team.Chat.Store.{undone, is_member_of_chat, is_chat_exist}
use slps_team.Chat.Messages.{create_message_row}

-- The names that the uploads of a message's files give.
abbrev pub attached_paths : Names → List File → Option ℕ → Disk → Result (List String)
attached_paths names [] sticker_id d = ok []
attached_paths names (f ∷ fs) (some sticker) d = ok []
attached_paths names (f ∷ fs) none d = (upload_files names (f ∷ fs) d).0

module _ (names : Names) where
  upload_attachments-Ensures :
      (files : List File) (sticker_id : Option ℕ) (w : World)
      → Ensures
          (upload_attachments names files sticker_id)
          w
          (λ paths w'. (attached_paths names files sticker_id w.disk ≡ ok paths) × (w.db ≡ w'.db))
  upload_attachments-Ensures [] sticker_id w = Ensures-pure w [] (refl, refl)
  upload_attachments-Ensures (f ∷ fs) (some sticker) w = Ensures-pure w [] (refl, refl)
  upload_attachments-Ensures (f ∷ fs) none w = Ensures-on_disk w (upload_files names (f ∷ fs))

  module _ (P : ChatTables → Type 0) where
    upload_attachments-Held :
        (files : List File) (sticker_id : Option ℕ)
        → Held P (upload_attachments names files sticker_id)
    upload_attachments-Held [] sticker_id = Keeps-pure _
    upload_attachments-Held (f ∷ fs) (some sticker) = Keeps-pure _
    upload_attachments-Held (f ∷ fs) none = Held-on_disk P (upload_files names (f ∷ fs))

Spares-delete_attachments : (paths : List String) → Spares ChatTables (delete_attachments paths)
unfolding Spares delete_attachments
Spares-delete_attachments paths w = refl

module _ (names : Names) (user_id chat_id : ℕ) (text : String) (files : List File)
    (sticker_id : Option ℕ) (w : World) where
  -- After a success: the checks were passed, and the message is in the tables.
  abbrev pub IsAccepted : ℕ → World → Type 0
  IsAccepted id w' =
      (is_refused text files sticker_id ≡ false)
      × (any (is_chat chat_id) w.db.tables.chats ≡ true)
      × (any (is_member chat_id user_id) w.db.tables.members ≡ true)
      × (paths : List String) × (attached_paths names files sticker_id w.disk ≡ ok paths)
      × IsPosted user_id chat_id text sticker_id paths w.db.tables id w'.db.tables

  -- From the upload on, in a state with the same tables and files.
  posting-Ensures :
      (v : World)
      → IsSame w v
      → Ensures
          (or_return Sentinel.service (upload_attachments names files sticker_id) >>= λ paths.
            or_clean
              (delete_attachments paths)
              Sentinel.db
              (on_db (create_message_row user_id chat_id text sticker_id paths)))
          v
          (λ id w'.
            (paths : List String) × (attached_paths names files sticker_id w.disk ≡ ok paths)
            × IsPosted user_id chat_id text sticker_id paths w.db.tables id w'.db.tables)
  posting-Ensures v same =
      Ensures-bind _ _ v
        (Ensures-on_error v (λ _. Sentinel.service) _
          (upload_attachments-Ensures names files sticker_id v))
        λ paths u (drawn, still). record {
          at = λ id w' e.
              let (written, _) =
                (Ensures-or_clean u (delete_attachments paths) Sentinel.db _ (
                    Ensures-on_db u _
                      (create_message_row-Ensures user_id chat_id text sticker_id paths u.db))).at
                  id w' e in
              let tables : u.db.tables ≡ w.db.tables =
                sym (ap (λ (d : Db ChatTables). d.tables) still) ∙ same.tables in
              (
                paths,
                sym (ap (attached_paths names files sticker_id) same.disk) ∙ drawn,
                subst
                    (λ (t : ChatTables).
                      IsPosted user_id chat_id text sticker_id paths t id w'.db.tables)
                    tables written,
              );
        }

  create_message-Ensures :
      Ensures (create_message names user_id chat_id text files sticker_id) w IsAccepted
  unfolding create_message is_chat_exist is_member_of_chat
  create_message-Ensures =
      Ensures-bind _ _ w
        (Ensures-return_if (is_refused text files sticker_id) Sentinel.invalid_input w)
        λ _ w1 (fine, still).
          let same1 : IsSame w w1 = record {
            tables = sym (ap (λ (v : World). v.db.tables) still);
            disk = sym (ap (λ (v : World). v.disk) still);
          } in
          Ensures-asked w1 (λ t. any (is_chat chat_id) t.chats) Sentinel.db Sentinel.not_found _
            λ w2 there same2.
              Ensures-asked w2 (λ t. any (is_member chat_id user_id) t.members) Sentinel.db
                Sentinel.access_denied _
                λ w3 within same3. record {
                  at = λ id w' e.
                      let same : IsSame w w3 = record {
                        tables = same3.tables ∙ same2.tables ∙ same1.tables;
                        disk = same3.disk ∙ same2.disk ∙ same1.disk;
                      } in
                      let (paths, drawn, written) = (posting-Ensures w3 same).at id w' e in
                      (
                        fine,
                        sym (ap (λ (t : ChatTables). any (is_chat chat_id) t.chats) same1.tables)
                            ∙ there,
                        sym (
                              ap (λ (t : ChatTables). any (is_member chat_id user_id) t.members)
                                (same2.tables ∙ same1.tables))
                            ∙ within,
                        paths,
                        drawn,
                        written,
                      );
                }

  -- At most the identity columns have moved.
  abbrev pub Back : ChatTables → Type 0
  Back t = (u : ChatTables) × (t ≡ undone w.db.tables u)

  create_message_row-Back :
      (paths : List String) (w' : World)
      → Back w'.db.tables
      → Fails
          (on_db (create_message_row user_id chat_id text sticker_id paths))
          w'
          (λ v. Back v.db.tables)
  create_message_row-Back paths w' (u, back) = Fails-on_db w' _ (record {
    at = λ e db q.
        let (t, undid) =
          (create_message_row-Fails user_id chat_id text sticker_id paths w'.db).at e db q in
        (t, undid ∙ ap (λ (before : ChatTables). undone before t) back);
  })

  create_message-Fails :
      Fails (create_message names user_id chat_id text files sticker_id) w (λ v. Back v.db.tables)
  unfolding create_message is_chat_exist is_member_of_chat
  create_message-Fails =
      Fails-after _ _ w (Keeps-return_if (is_refused text files sticker_id) Sentinel.invalid_input)
        (w.db.tables, refl)
        λ _ w1 h1.
          Fails-after _ _ w1
            (Keeps-on_error (λ _. Sentinel.db) _
              (Held-on_db Back _ (Preserves-query Back λ t. some (any (is_chat chat_id) t.chats))))
            h1
            λ exists w2 h2.
              Fails-after _ _ w2 (Keeps-return_if (not exists) Sentinel.not_found) h2 λ _ w3 h3.
                Fails-after _ _ w3
                  (Keeps-on_error (λ _. Sentinel.db) _
                    (Held-on_db Back _
                      (Preserves-query Back λ t. some (any (is_member chat_id user_id) t.members))))
                  h3
                  λ member w4 h4.
                    Fails-after _ _ w4 (Keeps-return_if (not member) Sentinel.access_denied) h4
                      λ _ w5 h5.
                        Fails-after _ _ w5
                          (Keeps-on_error (λ _. Sentinel.service) _
                            (upload_attachments-Held names Back files sticker_id))
                          h5
                          λ paths w6 h6.
                            Fails-or_clean w6 (delete_attachments paths) Sentinel.db _ Back
                              (Spares-delete_attachments paths)
                              (create_message_row-Back paths w6 h6)

  -- Either the message is posted as it should be, or nothing has changed.
  abbrev pub IsOutcome : Result ℕ × World → Type 0
  IsOutcome (ok id, w') = IsAccepted id w'
  IsOutcome (err e, w') = Back w'.db.tables

  outcome :
      (x : Result ℕ × World)
      → create_message names user_id chat_id text files sticker_id w ≡ x
      → IsOutcome x
  outcome (ok id, w') q = create_message-Ensures.at id w' q
  outcome (err e, w') q = create_message-Fails.at e w' q

  -- In any environment: if `CreateMessage` succeeds, then the content was acceptable, the chat exists
  -- and the author is a member of it, the answer is the next message id, and the tables have one new
  -- message and its attachments, the uploaded names in order and none beside a sticker, and are
  -- otherwise as they were; if it fails, no row has changed.
  pub create_message-IsOutcome :
      IsOutcome (create_message names user_id chat_id text files sticker_id w)
  create_message-IsOutcome = outcome _ refl
