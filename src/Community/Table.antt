-- ===== src/Community/Table.antt =====
-- The statements of internal/repository/db/community.go, on the two tables.
use slps_team.Prelude.{
  is_one_of, ℕ, suc, String, Bool, not, ◌&&◌, ◌||◌, ◌==◌, leb, List, [], ◌∷◌, map, keep, any, tally,
  Option, none, some, if◌then◌else◌,
}
use Prim.Native.String.{count}
use slps_team.Community.{CommunityRow, Community, ShortCommunity, Subscription, CommunityTables}

-- `LENGTH(name) BETWEEN 3 AND 48` and `LENGTH(description) BETWEEN 0 AND 512`.
unfoldable pub fits_lengths : String → String → Bool
fits_lengths name description =
    leb 3 (count name) && leb (count name) 48 && leb (count description) 512

abbrev pub has_id : ℕ → CommunityRow → Bool
has_id id c = c.id == id

-- `WHERE id = … AND creator_id = …`
abbrev pub owned_by : ℕ → ℕ → CommunityRow → Bool
owned_by id creator_id c = c.id == id && c.creator_id == creator_id

abbrev pub is_subscription : ℕ → ℕ → Subscription → Bool
is_subscription community_id user_id s = s.community_id == community_id && s.user_id == user_id

-- `(SELECT COUNT(*) FROM community_subscriptions WHERE community_id = c.id)`, and as well the count
-- of the LEFT JOIN in `GetOtherCommunities`.
abbrev pub subscribers : ℕ → List Subscription → ℕ
subscribers id subscriptions = tally (λ s. s.community_id == id) subscriptions

abbrev pub fresh_row : ℕ → String → String → ℕ → Option String → Option String → ℕ → CommunityRow
fresh_row id name description creator_id avatar_path cover_path now = record {
  id = id;
  name = name;
  description = description;
  creator_id = creator_id;
  avatar_path = avatar_path;
  cover_path = cover_path;
  created_at = now;
  updated_at = now;
}

-- `INSERT INTO communities … RETURNING id, created_at, updated_at`, here the whole row.
unfoldable pub insert_community :
    String
    → String
    → ℕ
    → Option String
    → Option String
    → ℕ
    → CommunityTables
    → Option (CommunityRow × CommunityTables)
insert_community name description creator_id avatar_path cover_path now t =
    if fits_lengths name description && is_one_of t.users creator_id
    then (let row = fresh_row t.next_id name description creator_id avatar_path cover_path now in
        some (row, record t { communities = row ∷ t.communities; next_id = suc t.next_id }))
    else none

-- `SET name = $1, description = $2, avatar_path = $3, cover_path = $4, updated_at = …`
abbrev pub revised :
    String → String → Option String → Option String → ℕ → CommunityRow → CommunityRow
revised name description avatar_path cover_path now c = record c {
  name = name;
  description = description;
  avatar_path = avatar_path;
  cover_path = cover_path;
  updated_at = now;
}

-- `UPDATE communities … WHERE id = $5 AND creator_id = $6 RETURNING updated_at`: how many rows it
-- returns.
unfoldable pub update_communities :
    ℕ
    → ℕ
    → String
    → String
    → Option String
    → Option String
    → ℕ
    → CommunityTables
    → Option (ℕ × CommunityTables)
update_communities id creator_id name description avatar_path cover_path now t =
    let found = tally (owned_by id creator_id) t.communities in
    if found == 0 || fits_lengths name description
    then some (
      found,
      record t {
        communities =
            map
              (λ c.
                if owned_by id creator_id c
                then revised name description avatar_path cover_path now c
                else c)
              t.communities;
      },
    )
    else none

-- `DELETE FROM communities WHERE id = $1 AND creator_id = $2`; the subscriptions of a deleted
-- community go with it (ON DELETE CASCADE).
unfoldable pub delete_communities : ℕ → ℕ → ℕ → CommunityTables → Option (ℕ × CommunityTables)
delete_communities id creator_id now t =
    let deleted = any (owned_by id creator_id) t.communities in
    some (
      tally (owned_by id creator_id) t.communities,
      record t {
        communities = keep (λ c. not (owned_by id creator_id c)) t.communities;
        subscriptions = keep (λ s. not (deleted && s.community_id == id)) t.subscriptions;
      },
    )

-- `INSERT … ON CONFLICT (community_id, user_id) DO NOTHING`, with both foreign keys.
unfoldable pub insert_subscription : ℕ → ℕ → ℕ → CommunityTables → Option (ℕ × CommunityTables)
insert_subscription community_id user_id now t =
    if any (is_subscription community_id user_id) t.subscriptions
    then some (0, t)
    else if any (has_id community_id) t.communities && is_one_of t.users user_id
    then some (
      1,
      record t {
        subscriptions =
            record { community_id = community_id; user_id = user_id; created_at = now }
            ∷ t.subscriptions;
      },
    )
    else none

-- `DELETE FROM community_subscriptions WHERE community_id = $1 AND user_id = $2`
unfoldable pub delete_subscriptions : ℕ → ℕ → ℕ → CommunityTables → Option (ℕ × CommunityTables)
delete_subscriptions community_id user_id now t = some (
  tally (is_subscription community_id user_id) t.subscriptions,
  record t {
    subscriptions = keep (λ s. not (is_subscription community_id user_id s)) t.subscriptions;
  },
)

abbrev pub select_community : ℕ → List CommunityRow → Option CommunityRow
select_community id [] = none
select_community id (c ∷ cs) = if has_id id c then some c else select_community id cs

abbrev pub with_count : CommunityTables → CommunityRow → Community
with_count t c = record { row = c; subscribers_count = subscribers c.id t.subscriptions }

abbrev pub short_of : CommunityTables → CommunityRow → ShortCommunity
short_of t c = record {
  id = c.id;
  name = c.name;
  description = c.description;
  avatar_path = c.avatar_path;
  subscribers_count = subscribers c.id t.subscriptions;
}

-- `ORDER BY c.created_at DESC`, and the same of subscriptions.
abbrev pub newer : CommunityRow → CommunityRow → Bool
newer c d = leb d.created_at c.created_at

abbrev pub newer_subscription : Subscription → Subscription → Bool
newer_subscription s r = leb r.created_at s.created_at

-- Communities joined with the user's subscriptions: there is at most one for each.
abbrev pub joined_by : ℕ → CommunityTables → List CommunityRow
joined_by user_id t = keep (λ c. any (is_subscription c.id user_id) t.subscriptions) t.communities

-- `WHERE c.id NOT IN (SELECT community_id … WHERE user_id = $1)`
abbrev pub not_joined_by : ℕ → CommunityTables → List CommunityRow
not_joined_by user_id t =
    keep (λ c. not (any (is_subscription c.id user_id) t.subscriptions)) t.communities
