-- ===== src/Application/Tests.antt =====
-- Runs of the handlers for applications, and each theorem at an input that meets its hypotheses.
use slps_team.Prelude.{ℕ, String, refl, List, [], ◌∷◌, none, some}
use slps_team.Prelude.Int.{pos}
use slps_team.Prelude.Strings.{equals}
use slps_team.Errors.{Sentinel, sentinel}
use slps_team.Flow.{Result, ok, err}
use slps_team.Paginate.{PaginateQueryParams}
use slps_team.Sql.{Db}
use slps_team.Sql.Calm.{calm}
use slps_team.Application.{ApplicationStatus, ApplicationRow, Context, ApplicationTables}
use slps_team.Application.Store.{Draft}
use slps_team.Application.Status.Rows.{IsSettled}
use slps_team.Application.Status.{run_applications, run_applications-IsSettled}
use slps_team.Application.Owners.{asks, merges, IsSound, run_visits, run_visits-IsSound}

-- A closed application of user 1, and an open one of a guest.
abbrev two_rows : List ApplicationRow
two_rows =
    record {
      application = record {
        id = 1;
        status = ApplicationStatus.closed;
        category = "auth_problem";
        text = "no login";
        author_id = some 1;
        created_at = 3;
        updated_at = 3;
        email_reg = "a@b.c";
        email_feed_back = "a@b.c";
      };
      temp_session_id = none;
    }
    ∷ record {
      application = record {
        id = 2;
        status = ApplicationStatus.opened;
        category = "app_freezing";
        text = "it hangs";
        author_id = none;
        created_at = 5;
        updated_at = 5;
        email_reg = "a@b.c";
        email_feed_back = "a@b.c";
      };
      temp_session_id = some "t1";
    }
    ∷ []

abbrev start : Db ApplicationTables
start = record {
  tables = record { applications = two_rows; next_id = 3; users = 1 ∷ 2 ∷ [] };
  statements = 0;
  env = calm;
}

abbrev member : ℕ → Result String
member u = ok "member"

abbrev as_user : ℕ → Context
as_user u = record {
  user = some u;
  info = some (record { user_id = some u; temp_session_id = none });
}

abbrev draft : Draft
draft = record {
  text = "no chats";
  category = "chat_not_working";
  email_reg = "a@b.c";
  email_feed_back = "a@b.c";
}

run_applications-IsSettled_example :
    IsSettled 1 2
      (run_applications
        (record {
          context = as_user 2;
          get_user_role = member;
          request = slps_team.Application.Status.sets 1 "open";
        }
          ∷ record {
            context = as_user 1;
            get_user_role = member;
            request = slps_team.Application.Status.sets 2 "inWork";
          }
          ∷ [])
        start).tables
unfolding equals
run_applications-IsSettled_example =
    run_applications-IsSettled 1 2 _ start (record { closed = refl; idle = refl }) refl

abbrev first_page : PaginateQueryParams
first_page = record { limit = pos 10; page = pos 1 }

run_visits-IsSound_example : IsSound (
    run_visits
      (λ s. some s)
      (asks (record {
        user = none;
        cookie = none;
        get_user_role = λ u. err (sentinel Sentinel.db);
        visit = slps_team.Application.Owners.posts "t2" draft;
      })
        ∷ asks (record {
          user = some 2;
          cookie = some "t2";
          get_user_role = member;
          visit = slps_team.Application.Owners.lists first_page;
        })
        ∷ asks (record {
          user = some 2;
          cookie = some "t2";
          get_user_role = member;
          visit = slps_team.Application.Owners.lists first_page;
        })
        ∷ merges 1
        ∷ merges 0
        ∷ [])
      (record { db = start; goroutines = [] }))
run_visits-IsSound_example =
    run_visits-IsSound (λ s. some s) _ (record { db = start; goroutines = [] })
      (record { owned = refl; known = refl })
