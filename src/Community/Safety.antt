-- ===== src/Community/Safety.antt =====
-- Histories of requests that change communities, in any environment.
pub mod Keeps
pub mod Others
use slps_team.Prelude.{ℕ, String, List, [], ◌∷◌, Option, ◌≡◌, some}
use slps_team.Flow.{Result, Action, pure, ◌>>=◌}
use slps_team.Uploads.{File, Names}
use slps_team.Community.{CommunityRow, CommunityRequest, CommunityTables}
use slps_team.Community.Table.{
  insert_community, update_communities, delete_communities, insert_subscription,
  delete_subscriptions,
}
use slps_team.Community.Service.{
  Clients, World, Call, create_community, update_community, delete_community, subscribe,
  unsubscribe,
}

pub data Request : Type 0 where
  creates : CommunityRequest → Option File → Option File → Request
  updates : ℕ → CommunityRequest → Option File → Option File → Request
  deletes subscribes unsubscribes : ℕ → Request

-- A request and the user of its session.
pub record Asked : Type 0 where
  pub caller : ℕ
  pub request : Request

module _ (names : Names) (c : Clients) where
  unfoldable pub perform : ℕ → Request → Call (Unit {0})
  perform u (creates req a b) = create_community names c u req a b >>= λ _. pure tt
  perform u (updates id req a b) = update_community names c id u req a b
  perform u (deletes id) = delete_community id u
  perform u (subscribes id) = subscribe names c id u
  perform u (unsubscribes id) = unsubscribe id u

  unfoldable pub run_requests : List Asked → World → World
  run_requests [] w = w
  run_requests (r ∷ rs) w = run_requests rs (perform r.caller r.request w).1

-- What each statement of a user does keeps the predicate.
pub record IsClosed (P : CommunityTables → Type 0) (u : ℕ) : Type 0 where
  pub insert_closed :
      (name description : String) (a b : Option String) (now : ℕ) (t : CommunityTables)
      (row : CommunityRow) (t' : CommunityTables)
      → P t
      → insert_community name description u a b now t ≡ some (row, t')
      → P t'
  pub update_closed :
      (id : ℕ) (name description : String) (a b : Option String) (now : ℕ) (t : CommunityTables)
      (n : ℕ) (t' : CommunityTables)
      → P t
      → update_communities id u name description a b now t ≡ some (n, t')
      → P t'
  pub delete_closed :
      (id now : ℕ) (t : CommunityTables) (n : ℕ) (t' : CommunityTables)
      → P t
      → delete_communities id u now t ≡ some (n, t')
      → P t'
  pub join_closed :
      (id now : ℕ) (t : CommunityTables) (n : ℕ) (t' : CommunityTables)
      → P t
      → insert_subscription id u now t ≡ some (n, t')
      → P t'
  pub leave_closed :
      (id now : ℕ) (t : CommunityTables) (n : ℕ) (t' : CommunityTables)
      → P t
      → delete_subscriptions id u now t ≡ some (n, t')
      → P t'
