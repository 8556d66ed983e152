-- ===== src/Friend/Table.antt =====
-- The statements of internal/repository/db/friend.go, on the rows of friend_relationships.
use slps_team.Prelude.{
  ℕ, Bool, not, ◌&&◌, ◌||◌, ◌==◌, leb, List, [], ◌∷◌, map, keep, all, tally, Option, none, some,
  if◌then◌else◌,
}
use slps_team.Friend.{FriendshipStatus, is_status, Row, Tables, satisfies_constraints}

-- `WHERE first_user_id = … AND second_user_id = …`
abbrev pub has_key : ℕ → ℕ → Row → Bool
has_key f s r = r.first_user_id == f && r.second_user_id == s

-- `WHERE first_user_id = $1 OR second_user_id = $1`
abbrev pub involves : ℕ → Row → Bool
involves u r = r.first_user_id == u || r.second_user_id == u

-- `CASE WHEN first_user_id = $1 THEN second_user_id ELSE first_user_id END`
abbrev pub other_user : ℕ → Row → ℕ
other_user u r = if r.first_user_id == u then r.second_user_id else r.first_user_id

-- The conditions on the status, `$1` being the user that asks.
abbrev pub is_accepted : Row → Bool
is_accepted r = is_status r.status FriendshipStatus.accepted

abbrev pub is_blocked : Row → Bool
is_blocked r = is_status r.status FriendshipStatus.blocked

abbrev pub is_incoming : ℕ → Row → Bool
is_incoming u r =
    (is_status r.status FriendshipStatus.pending && not (r.action_user_id == u))
    || (is_status r.status FriendshipStatus.rejected && r.action_user_id == u)

abbrev pub is_sent : ℕ → Row → Bool
is_sent u r =
    (is_status r.status FriendshipStatus.pending && r.action_user_id == u)
    || (is_status r.status FriendshipStatus.rejected && not (r.action_user_id == u))

abbrev pub select_row : ℕ → ℕ → List Row → Option Row
select_row f s [] = none
select_row f s (r ∷ rs) = if has_key f s r then some r else select_row f s rs

-- `SET status = …, action_user_id = …, updated_at = CURRENT_TIMESTAMP`
abbrev pub assign : ℕ → FriendshipStatus → ℕ → Row → Row
assign action st now r = record r { action_user_id = action; status = st; updated_at = now }

abbrev pub new_row : ℕ → ℕ → ℕ → FriendshipStatus → ℕ → Row
new_row f s action st now = record {
  first_user_id = f;
  second_user_id = s;
  action_user_id = action;
  status = st;
  created_at = now;
  updated_at = now;
}

abbrev pub upsert : ℕ → ℕ → ℕ → FriendshipStatus → ℕ → List Row → List Row
upsert f s action st now [] = new_row f s action st now ∷ []
upsert f s action st now (r ∷ rs) =
    if has_key f s r then assign action st now r ∷ rs else r ∷ upsert f s action st now rs

abbrev pub assign_at : ℕ → ℕ → ℕ → FriendshipStatus → ℕ → Row → Row
assign_at f s action st now r = if has_key f s r then assign action st now r else r

-- `INSERT … ON CONFLICT (first_user_id, second_user_id) DO UPDATE`: one row affected.
unfoldable pub insert_or_update : ℕ → ℕ → ℕ → FriendshipStatus → ℕ → Tables → Option (ℕ × Tables)
insert_or_update f s action st now t =
    if satisfies_constraints t.users (new_row f s action st now)
    then some (1, record t { rows = upsert f s action st now t.rows })
    else none

-- `UPDATE … SET … WHERE …`, with the number of rows that it found.
unfoldable pub update_rows : ℕ → ℕ → ℕ → FriendshipStatus → ℕ → Tables → Option (ℕ × Tables)
update_rows f s action st now t =
    if all (λ r. not (has_key f s r) || satisfies_constraints t.users (assign action st now r))
      t.rows
    then some
        (tally (has_key f s) t.rows, record t { rows = map (assign_at f s action st now) t.rows })
    else none

-- `DELETE … WHERE …`, with the number of rows that it found.
unfoldable pub delete_rows : ℕ → ℕ → ℕ → Tables → Option (ℕ × Tables)
delete_rows f s now t =
    some (tally (has_key f s) t.rows, record t { rows = keep (λ r. not (has_key f s r)) t.rows })

-- `SELECT CASE … FROM friend_relationships WHERE (… OR …) AND …`
abbrev pub related : ℕ → (Row → Bool) → List Row → List ℕ
related u test rows = map (other_user u) (keep (λ r. involves u r && test r) rows)

-- `ORDER BY created_at DESC`; rows of the same time stay in the order of the table.
abbrev pub newest_first : Row → Row → Bool
newest_first r r' = leb r'.created_at r.created_at
