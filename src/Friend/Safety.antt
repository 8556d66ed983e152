-- ===== src/Friend/Safety.antt =====
-- The requests that change friendships, one after another, in an environment that may fail any
-- statement: what a history of them can do.
pub mod Store
pub mod Send
pub mod Answer
pub mod History
pub mod Valid
use slps_team.Prelude.{ℕ, ◌≡◌, ◌⊎◌, List, [], ◌∷◌, if◌then◌else◌}
use slps_team.Flow.{Result}
use slps_team.Sql.{Db}
use slps_team.Friend.{FriendshipStatus, Tables}
use slps_team.Friend.Store.{Method}
use slps_team.Friend.Service.{
  Clients, send_friend_request, accept_friend_request, reject_friend_request, remove_friend,
}
use slps_team.Friend.Laws.{Standing}
use slps_team.Friend.Lifecycle.{standing, same_pair, Verdict, done, on_send, on_answer, on_remove}

-- Who asks comes first.
pub data Call : Type 0 where
  sends accepts rejects removes : ℕ → ℕ → Call

abbrev pub caller : Call → ℕ
caller (sends a b) = a
caller (accepts a b) = a
caller (rejects a b) = a
caller (removes a b) = a

abbrev pub partner : Call → ℕ
partner (sends a b) = b
partner (accepts a b) = b
partner (rejects a b) = b
partner (removes a b) = b

-- What the machine of Friend/Lifecycle says to a call.
abbrev pub verdict : Call → Standing → Verdict
verdict (sends a b) z = on_send a z
verdict (accepts a b) z = on_answer FriendshipStatus.accepted a z
verdict (rejects a b) z = on_answer FriendshipStatus.rejected a z
verdict (removes a b) z = on_remove z

-- The tables stay, or the pair moves as the verdict says and no other pair does.
abbrev pub Moves : Verdict → ℕ → ℕ → Tables → Tables → Type 0
Moves v a b t t' =
    (t' ≡ t)
    ⊎ ((z : Standing) × (v ≡ done z)
        × ((x y : ℕ) → standing x y t' ≡ (if same_pair a b x y then z else standing x y t)))

abbrev pub Follows : Call → Tables → Tables → Type 0
Follows c t t' = Moves (verdict c (standing (caller c) (partner c) t)) (caller c) (partner c) t t'

module _ (clients : Clients) where
  unfoldable pub perform : Call → Method (Unit {0})
  perform (sends a b) = send_friend_request clients a b
  perform (accepts a b) = accept_friend_request a b
  perform (rejects a b) = reject_friend_request a b
  perform (removes a b) = remove_friend a b

  -- A history of calls, whatever each of them answers.
  unfoldable pub run : List Call → Db Tables → Db Tables
  run [] db = db
  run (c ∷ cs) db = run cs (perform c db).1
