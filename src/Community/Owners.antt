-- ===== src/Community/Owners.antt =====
-- Who may change a community: the refusals while the database answers.
use slps_team.Prelude.{ℕ, ◌≡◌, true, false, ◌==◌, Option, none, some}
use slps_team.Errors.{Sentinel, sentinel}
use slps_team.Flow.{err, flow_steps}
use slps_team.Sql.Calm.{IsCalm}
use slps_team.Uploads.{File, Names}
use slps_team.Community.{CommunityRow, CommunityRequest}
use slps_team.Community.Table.{select_community}
use slps_team.Community.Service.{Clients, World, update_community, delete_community}
use slps_team.Community.Members.{existing_calm, existing_missing, ticked}

-- Why a change is refused: the community is missing, or another user made it.
pub data Refusal (id u : ℕ) (w : World) : Sentinel → Type 0 where
  missing : select_community id w.db.tables.communities ≡ none → Refusal id u w Sentinel.not_found
  of_another :
      (c : CommunityRow)
      → select_community id w.db.tables.communities ≡ some c
      → c.creator_id == u ≡ false
      → Refusal id u w Sentinel.access_denied

-- While the database answers: an acceptable update and a deletion of a community that does not exist
-- are answered by "not found", those of a community of another creator by "access denied", and no
-- table and no file changes.
changes_refused :
    (names : Names) (clients : Clients) (id u : ℕ) (req : CommunityRequest)
    (avatar cover : Option File) (w : World) (e : Sentinel)
    → IsCalm w.db.env
    → clients.validate_struct req ≡ true
    → Refusal id u w e
    → (update_community names clients id u req avatar cover w ≡ (err (sentinel e), ticked w))
      × (delete_community id u w ≡ (err (sentinel e), ticked w))
unfolding update_community delete_community
changes_refused names clients id u req avatar cover w _ calm valid (missing gone) = (
  simp (valid, existing_missing id w calm gone, flow_steps),
  simp (existing_missing id w calm gone, flow_steps),
)
changes_refused names clients id u req avatar cover w _ calm valid (of_another c there other) = (
  simp (valid, existing_calm id w calm c there, other, flow_steps),
  simp (existing_calm id w calm c there, other, flow_steps),
)
