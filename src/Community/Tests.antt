-- ===== src/Community/Tests.antt =====
-- Runs of the community service, and each theorem at an input that meets its hypotheses.
use slps_team.Prelude.{◌≡◌, refl, true, false, any, List, [], ◌∷◌, none}
use slps_team.Flow.{ok, ◌>>◌}
use slps_team.Sql.Calm.{calm, calm-IsCalm}
use slps_team.Uploads.{Names}
use slps_team.Backend.{on_db, discard}
use slps_team.Community.{CommunityRow, CommunityRequest}
use slps_team.Community.Table.{
  is_subscription, fits_lengths, insert_community, update_communities, delete_communities,
  insert_subscription,
}
use slps_team.Community.Store.{
  create_community_row, update_community_row, delete_community_row, get_community_by_id,
  subscribe_row,
}
use slps_team.Community.Service.{
  Clients, World, create_community, update_community, delete_community, subscribe, unsubscribe,
  existing_community, take_picture,
}
use slps_team.Community.Safety.{creates, updates, deletes, subscribes, Asked, perform, run_requests}
use slps_team.Community.Safety.Others.{
  created_by, only_of, run_requests-created, run_requests-subscription,
}
use slps_team.Community.Members.{subscribe-unsubscribe}

abbrev one_name : Names
one_name = record {
  uuid = λ n. "8f14e45f-ceea-467f-a0b1-9d4c1f3a5b60";
  ext = λ s. ".png";
  uuid_length = λ n. refl;
}

abbrev plain : Clients
plain = record {
  validate_struct = λ req. true;
  is_user_exists = λ u. ok true;
  short_profile_map = λ ids. ok (λ i. none);
  search_community_ids = λ name ids within limit offset. ok [];
}

abbrev chess : CommunityRow
chess = record {
  id = 1;
  name = "chess";
  description = "";
  creator_id = 2;
  avatar_path = none;
  cover_path = none;
  created_at = 5;
  updated_at = 5;
}

-- User 2 has made a community, and is subscribed to it with user 3.
abbrev start : World
start = record {
  db = record {
    tables = record {
      communities = chess ∷ [];
      subscriptions =
          record { community_id = 1; user_id = 3; created_at = 6 }
          ∷ record { community_id = 1; user_id = 2; created_at = 5 }
          ∷ [];
      next_id = 2;
      users = 1 ∷ 2 ∷ 3 ∷ [];
    };
    statements = 0;
    env = calm;
  };
  disk = record {
    files = λ n. none;
    drawn = 0;
    write_fails = λ n. false;
    torn = λ n. none;
    remove_fails = λ n. false;
  };
}

abbrev chat_request : CommunityRequest
chat_request = record { name = "talk"; description = "about" }

-- User 1 makes a community, tries the other one, and user 4 is unknown to the table.
abbrev requests : List Asked
requests =
    record { caller = 1; request = creates chat_request none none }
    ∷ record { caller = 1; request = updates 1 chat_request none none }
    ∷ record { caller = 1; request = deletes 1 }
    ∷ record { caller = 1; request = subscribes 1 }
    ∷ record { caller = 4; request = subscribes 1 }
    ∷ []

run_requests-created_example :
    created_by 2 (run_requests one_name plain requests start).db.tables.communities ≡ chess ∷ []
run_requests-created_example = run_requests-created one_name plain 2 requests start refl

run_requests-subscription_example :
    (any (is_subscription 1 3) (run_requests one_name plain requests start).db.tables.subscriptions
      ≡ true)
    × (only_of 1 2 (run_requests one_name plain requests start).db.tables.communities ≡ true)
run_requests-subscription_example =
    run_requests-subscription one_name plain 1 2 3 requests start refl refl refl

subscribe-unsubscribe_example :
    let after = (subscribe one_name plain 1 1 >> unsubscribe 1 1) start in
    (after.0 ≡ ok tt) × (after.1.db.tables ≡ start.db.tables)
subscribe-unsubscribe_example =
    subscribe-unsubscribe one_name plain 1 1 chess start calm-IsCalm refl refl refl refl

-- The new community has the next id, and its creator is subscribed to it.
created_and_joined :
    any (is_subscription 2 1) (run_requests one_name plain requests start).db.tables.subscriptions
    ≡ true
unfolding run_requests perform create_community update_community delete_community subscribe
    existing_community take_picture on_db discard create_community_row update_community_row
    delete_community_row get_community_by_id subscribe_row insert_community update_communities
    delete_communities insert_subscription fits_lengths
created_and_joined = refl
