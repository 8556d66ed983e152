-- ===== src/Chat/Unread.antt =====
-- Reading: how far a member has read, in any environment.
use slps_team.Prelude.{
  ℕ, suc, ◌≤◌, ◌≡◌, refl, arith, ap, true, false, ◌&&◌, ltb, map, List, [], ◌∷◌, if◌then◌else◌,
  Bool-cases, inl, inr, ◌⊎◌,
}
use slps_team.Errors.{Error, Sentinel, wrapped}
use slps_team.Flow.{Result, ok, err, handled}
use slps_team.Sql.{Db, driver_error, sql_steps}
use slps_team.Backend.{on_db_run}
use slps_team.Chat.{MemberRow, MessageRow, ChatTables}
use slps_team.Chat.Table.{is_member, read_up_to, update_last_read, unread}
use slps_team.Chat.Store.{update_last_read_message_row}
use slps_team.Chat.Service.{World, update_last_read_message}

-- Row by row: the same members, nobody has read less, nobody has more unread messages, and only the
-- row of the one membership may differ.
abbrev pub HasAdvanced : ℕ → ℕ → List MessageRow → List MemberRow → List MemberRow → Type 0
HasAdvanced u c messages [] [] = Unit
HasAdvanced u c messages (m ∷ ms) (n ∷ ns) =
    (n.chat_id ≡ m.chat_id)
    × (n.member_id ≡ m.member_id)
    × (m.last_read_message_id ≤ n.last_read_message_id)
    × (unread n messages ≤ unread m messages)
    × (n ≡ (if is_member c u m then n else m))
    × HasAdvanced u c messages ms ns
HasAdvanced u c messages _ _ = ⊥

module _ (u c : ℕ) (messages : List MessageRow) where
  HasAdvanced-refl : (ms : List MemberRow) → HasAdvanced u c messages ms ms
  HasAdvanced-refl [] = tt
  HasAdvanced-refl (m ∷ ms) =
      (refl, refl, omega arith, omega arith, ground arith, HasAdvanced-refl ms)

  fewer_unread :
      (m : MemberRow) (id : ℕ) (xs : List MessageRow)
      → ltb m.last_read_message_id id ≡ true
      → unread (record m { last_read_message_id = id }) xs ≤ unread m xs
  fewer_unread m id [] e = omega arith
  fewer_unread m id (x ∷ xs) e = ground (arith, e, fewer_unread m id xs)

  read_up_to-HasAdvanced :
      (id : ℕ) (ms : List MemberRow) → HasAdvanced u c messages ms (map (read_up_to u c id) ms)
  read_up_to-HasAdvanced id [] = tt
  read_up_to-HasAdvanced id (m ∷ ms) =
      elim (Bool-cases (is_member c u m && ltb m.last_read_message_id id)) [
        | inl further ↦
            let later : ltb m.last_read_message_id id ≡ true = ground (arith, further) in
            rw further (
              refl,
              refl,
              ground (arith, later),
              fewer_unread m id messages later,
              ground (arith, further),
              read_up_to-HasAdvanced id ms,
            )
        | inr not_further ↦
            rw not_further
              (refl, refl, omega arith, omega arith, ground arith, read_up_to-HasAdvanced id ms)
      ]

module _ (u c id : ℕ) (w : World) where
  abbrev ticked : ChatTables → Db ChatTables
  ticked t = record (w.db) { tables = t; statements = suc w.db.statements }

  abbrev updated : ChatTables
  updated = record (w.db.tables) { members = map (read_up_to u c id) w.db.tables.members }

  abbrev failed : Error
  failed = wrapped "query failed" driver_error

  row_down :
      w.db.env.fails w.db.statements ≡ true
      → update_last_read_message_row u c id w.db ≡ (err failed, ticked w.db.tables)
  unfolding update_last_read_message_row
  row_down down = simp (down, sql_steps)

  row_up :
      w.db.env.fails w.db.statements ≡ false
      → update_last_read_message_row u c id w.db ≡ (ok tt, ticked updated)
  unfolding update_last_read_message_row update_last_read
  row_up up = simp (up, sql_steps)

  abbrev tables_after : Result (Unit {0}) × World → ChatTables
  tables_after x = (handled (λ _. Sentinel.db) x).1.db.tables

  updated_or_not :
      ((update_last_read_message u c id w).1.db.tables ≡ w.db.tables)
      ⊎ ((update_last_read_message u c id w).1.db.tables
          ≡ record (w.db.tables) { members = map (read_up_to u c id) w.db.tables.members })
  unfolding update_last_read_message
  updated_or_not = elim (Bool-cases (w.db.env.fails w.db.statements)) [
    | inl down ↦ inl (
        ap tables_after (
          on_db_run (update_last_read_message_row u c id) w (err failed, ticked w.db.tables)
            (row_down down)))
    | inr up ↦ inr (
        ap tables_after
          (on_db_run (update_last_read_message_row u c id) w (ok tt, ticked updated) (row_up up)))
  ]

-- Whatever fails: after `UpdateLastReadMessage` the chats have the same members, nobody has read less
-- than before or has more unread messages, only the row of the caller in the chat may differ, and the
-- messages are the same.
pub update_last_read_message-HasAdvanced :
    (u c id : ℕ) (w : World)
    → let w' = (update_last_read_message u c id w).1 in
      HasAdvanced u c w.db.tables.messages w.db.tables.members w'.db.tables.members
      × (w'.db.tables.messages ≡ w.db.tables.messages)
update_last_read_message-HasAdvanced u c id w = elim (updated_or_not u c id w) [
  | inl same ↦ rw same (HasAdvanced-refl u c w.db.tables.messages w.db.tables.members, refl)
  | inr moved ↦
      rw moved (read_up_to-HasAdvanced u c w.db.tables.messages id w.db.tables.members, refl)
]
