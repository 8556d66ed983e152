-- ===== src/Chat/Table.antt =====
-- The statements of internal/repository/db/chat.go and internal/repository/db/message.go, on the
-- four tables.
use Prim.Native.String.{count}
use slps_team.Prelude.{
  is_one_of, ℕ, zero, suc, String, Bool, true, false, not, ◌&&◌, ◌||◌, ◌==◌, ltb, leb, List, [],
  ◌∷◌, ◌++◌, map, keep, any, tally, Option, none, some, if◌then◌else◌,
}
use slps_team.Prelude.Sort.{sort}
use slps_team.Chat.{
  ChatRow, MemberRow, MessageRow, AttachmentRow, ChatTables, ShortProfile, FullChat,
  MemberWithLastReadMessage,
}

abbrev pub is_chat : ℕ → ChatRow → Bool
is_chat id c = c.id == id

-- `WHERE chat_id = … AND member_id = …`
abbrev pub is_member : ℕ → ℕ → MemberRow → Bool
is_member chat_id user_id m = m.chat_id == chat_id && m.member_id == user_id

-- `WHERE member_id = ANY($1) GROUP BY chat_id HAVING COUNT(*) = 2 AND bool_and(member_id = ANY($1))`:
-- the rows are grouped after the WHERE, so that `bool_and` holds of every group.
abbrev pub has_both : ℕ → ℕ → List MemberRow → ℕ → Bool
has_both a b members chat_id =
    tally (λ m. m.chat_id == chat_id && (m.member_id == a || m.member_id == b)) members == 2

-- One of several: the `k`-th, or the last.
abbrev pub at_or : ℕ → ℕ → List ℕ → ℕ
at_or i zero is = i
at_or i (suc k) [] = i
at_or i (suc k) (j ∷ is) = at_or j k is

abbrev pub pick_from : ℕ → List ℕ → Option ℕ
pick_from k [] = none
pick_from k (i ∷ is) = some (at_or i k is)

-- The chats of the groups that pass.
abbrev pub chats_of_both : ℕ → ℕ → List MemberRow → List ℕ
chats_of_both a b members = keep (has_both a b members) (map (λ (m : MemberRow). m.chat_id) members)

-- `LIMIT 1` without an order gives any one of them.
unfoldable pub select_pair : ℕ → ℕ → ℕ → ChatTables → Option ℕ
select_pair k a b t = pick_from k (chats_of_both a b t.members)

-- `INSERT INTO chats DEFAULT VALUES RETURNING id`
unfoldable pub insert_chat : ChatTables → Option (ℕ × ChatTables)
insert_chat t = some (
  t.next_chat,
  record t {
    chats = record { id = t.next_chat; is_group = false; name = none; avatar = none } ∷ t.chats;
    next_chat = suc t.next_chat;
  },
)

abbrev pub new_member : ℕ → ℕ → MemberRow
new_member chat_id user_id = record {
  chat_id = chat_id;
  member_id = user_id;
  last_read_message_id = 0;
}

-- `INSERT INTO chat_members (chat_id, member_id) VALUES ($1, $2), ($1, $3)`
unfoldable pub insert_members : ℕ → ℕ → ℕ → ChatTables → Option (ℕ × ChatTables)
insert_members chat_id a b t =
    if not (a == b)
      && not (any (λ m. is_member chat_id a m || is_member chat_id b m) t.members)
      && any (is_chat chat_id) t.chats
      && is_one_of t.users a
      && is_one_of t.users b
    then some (2, record t { members = new_member chat_id a ∷ new_member chat_id b ∷ t.members })
    else none

-- `AND $1 > last_read_message_id`
abbrev pub read_up_to : ℕ → ℕ → ℕ → MemberRow → MemberRow
read_up_to user_id chat_id id m =
    if is_member chat_id user_id m && ltb m.last_read_message_id id
    then record m { last_read_message_id = id }
    else m

unfoldable pub update_last_read : ℕ → ℕ → ℕ → ChatTables → Option (ℕ × ChatTables)
update_last_read user_id chat_id id t = some (
  tally (λ m. is_member chat_id user_id m && ltb m.last_read_message_id id) t.members,
  record t { members = map (read_up_to user_id chat_id id) t.members },
)

abbrev pub known_sticker : List ℕ → Option ℕ → Bool
known_sticker stickers none = true
known_sticker stickers (some id) = is_one_of stickers id

-- `INSERT INTO messages … RETURNING id`, in a transaction that began at `now`.
unfoldable pub insert_message : ℕ → ℕ → String → Option ℕ → ℕ → ChatTables → Option (ℕ × ChatTables)
insert_message author_id chat_id text sticker_id now t =
    if is_one_of t.users author_id
      && any (is_chat chat_id) t.chats
      && known_sticker t.stickers sticker_id
    then some (
      t.next_message,
      record t {
        messages =
            record {
              id = t.next_message;
              author_id = author_id;
              chat_id = chat_id;
              text = text;
              sticker_id = sticker_id;
              created_at = now;
            }
            ∷ t.messages;
        next_message = suc t.next_message;
      },
    )
    else none

-- `INSERT INTO attachments (obj_id, obj_type, file_path) VALUES ($1, 'message', $2)`
unfoldable pub insert_attachment : ℕ → String → ℕ → ChatTables → Option (ℕ × ChatTables)
insert_attachment message_id path now t =
    if leb 1 (count path) && leb (count path) 512
    then some (
      1,
      record t {
        attachments =
            t.attachments
            ++ record { obj_id = message_id; file_path = path; created_at = now } ∷ [];
      },
    )
    else none

-- `ORDER BY created_at DESC`, and `ORDER BY created_at` of attachments.
abbrev pub later : MessageRow → MessageRow → Bool
later m n = leb n.created_at m.created_at

abbrev pub earlier : AttachmentRow → AttachmentRow → Bool
earlier x y = leb x.created_at y.created_at

abbrev pub messages_of : ℕ → ChatTables → List MessageRow
messages_of chat_id t = sort later (keep (λ m. m.chat_id == chat_id) t.messages)

abbrev pub paths_of : ℕ → ChatTables → List String
paths_of message_id t =
    map (λ (x : AttachmentRow). x.file_path)
      (sort earlier (keep (λ x. x.obj_id == message_id) t.attachments))

-- `COUNT(m.id)` of the LEFT JOIN on `m.chat_id = cm.chat_id AND m.id > cm.last_read_message_id`.
abbrev pub unread : MemberRow → List MessageRow → ℕ
unread m messages = tally (λ x. x.chat_id == m.chat_id && ltb m.last_read_message_id x.id) messages

abbrev pub with_unread : ChatTables → MemberRow → MemberWithLastReadMessage
with_unread t m = record {
  member_id = m.member_id;
  last_read_message_id = m.last_read_message_id;
  unread_counts = unread m t.messages;
}

-- `WHERE cm.member_id != $1 AND cm.chat_id = $2`
abbrev pub others_of : ℕ → ℕ → ChatTables → List MemberRow
others_of user_id chat_id t =
    keep (λ m. not (m.member_id == user_id) && m.chat_id == chat_id) t.members

abbrev pub first_of : {A : Type 0} → List A → Option A
first_of [] = none
first_of (x ∷ xs) = some x

abbrev pub select_chat : ℕ → List ChatRow → Option ChatRow
select_chat id [] = none
select_chat id (c ∷ cs) = if is_chat id c then some c else select_chat id cs

abbrev pub nobody : ShortProfile
nobody = record { full_name = ""; avatar_path = none }

-- What a row of the chat queries says; the author's profile is filled in by the service.
abbrev pub full_chat : ChatRow → MessageRow → Option ℕ → ℕ → ℕ → FullChat
full_chat c m with_user last_read unread_counts = record {
  id = c.id;
  is_group = c.is_group;
  user_id_with = if c.is_group then none else with_user;
  avatar_path = c.avatar;
  name = c.name;
  last_message = record m { sticker_id = none };
  last_message_author = nobody;
  last_read_message_id = last_read;
  unread_counts = unread_counts;
}

-- `LEFT JOIN private_user_ids`: a row for each other member, and one row where there is none.
abbrev pub rows_with : ChatRow → MessageRow → ℕ → ℕ → List MemberRow → List FullChat
rows_with c m last_read n [] = full_chat c m none last_read n ∷ []
rows_with c m last_read n (o ∷ os) =
    map (λ (x : MemberRow). full_chat c m (some x.member_id) last_read n) (o ∷ os)

-- The rows of one membership: none for a chat with no message.
unfoldable pub rows_of_member : ChatTables → MemberRow → List FullChat
rows_of_member t self = elim (select_chat self.chat_id t.chats) [
  | none ↦ []
  | some c ↦ elim (first_of (messages_of self.chat_id t)) [
    | none ↦ []
    | some m ↦
        rows_with c m self.last_read_message_id (unread self t.messages)
          (others_of self.member_id self.chat_id t)
  ]
]

abbrev pub all_rows : ChatTables → List MemberRow → List FullChat
all_rows t [] = []
all_rows t (m ∷ ms) = rows_of_member t m ++ all_rows t ms

-- `ORDER BY lm.created_at DESC`
abbrev pub later_chat : FullChat → FullChat → Bool
later_chat c d = later c.last_message d.last_message

unfoldable pub chats_of : ℕ → ChatTables → List FullChat
chats_of user_id t = sort later_chat (all_rows t (keep (λ m. m.member_id == user_id) t.members))
