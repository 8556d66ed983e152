-- ===== src/Friend/Lifecycle.antt =====
-- The life of one pair of users as an abstract machine, which knows nothing of rows, keys or
-- statements: what each request of internal/service/friend.go answers and does to the pair.
pub mod Calm
pub mod Rows
pub mod Send
pub mod Answer
pub mod Remove
use slps_team.Prelude.{ℕ, ◌≡◌, Bool, ◌==◌, Option, none, some, if◌then◌else◌}
use slps_team.Errors.{Sentinel, sentinel}
use slps_team.Flow.{Result, ok, err}
use slps_team.Sql.{Db}
use slps_team.Friend.{FriendshipStatus, Tables}
use slps_team.Friend.Store.{Method, ensure_user_order}
use slps_team.Friend.Laws.{Standing, standing_at, same_key}

-- The standing of a pair, whichever is named first.
unfoldable pub standing : ℕ → ℕ → Tables → Standing
unfolding ensure_user_order
standing x y t = let (f, s) = ensure_user_order x y in standing_at f s t.rows

unfoldable pub same_pair : ℕ → ℕ → ℕ → ℕ → Bool
unfolding ensure_user_order
same_pair a b x y =
    let (f, s) = ensure_user_order a b in let (f', s') = ensure_user_order x y in same_key f s f' s'

-- What the machine says to a request: the new standing, or the error.
pub data Verdict : Type 0 where
  done : Standing → Verdict
  refused : Sentinel → Verdict

-- A request can be sent where there is none, or after a rejection.
abbrev pub on_send : ℕ → Standing → Verdict
on_send a none = done (some (FriendshipStatus.pending, a))
on_send a (some (FriendshipStatus.accepted, _)) = refused Sentinel.already_exists
on_send a (some (FriendshipStatus.pending, _)) = refused Sentinel.already_exists
on_send a (some (FriendshipStatus.blocked, _)) = refused Sentinel.access_denied
on_send a (some _) = done (some (FriendshipStatus.pending, a))

-- An answer is taken from the one who did not send; who finds no row at all is told of a database
-- error.
abbrev pub on_answer : FriendshipStatus → ℕ → Standing → Verdict
on_answer answer u none = refused Sentinel.db
on_answer answer u (some (FriendshipStatus.pending, sender)) =
    if sender == u then refused Sentinel.not_found else done (some (answer, u))
on_answer answer u (some _) = refused Sentinel.not_found

-- Either user can remove any standing.
abbrev pub on_remove : Standing → Verdict
on_remove none = refused Sentinel.db
on_remove (some _) = done none

-- The call does what the verdict says to the pair, and nothing to any other pair.
abbrev pub Implements : Verdict → ℕ → ℕ → Method (Unit {0}) → Db Tables → Type 0
Implements (done z) a b m db =
    ((m db).0 ≡ ok tt)
    × ((x y : ℕ)
        → standing x y (m db).1.tables ≡ (if same_pair a b x y then z else standing x y db.tables))
Implements (refused e) a b m db = ((m db).0 ≡ err (sentinel e)) × ((m db).1.tables ≡ db.tables)
