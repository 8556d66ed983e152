-- ===== src/Friend/Safety/Valid.antt =====
-- Histories of calls in any environment: the table keeps its constraints.
use slps_team.Prelude.{ℕ, List, [], ◌∷◌, ◌==◌, Option, none, some}
use slps_team.Flow.{Result, ok, err}
use slps_team.Sql.{Db}
use slps_team.Flow.Keeps.{
  Keeps-bind, Keeps-if, Keeps-pure, Keeps-return_if, Keeps-raise, Keeps-or_return, Keeps-on_error,
  Keeps-lift,
}
use slps_team.Sql.Keeps.{
  Preserves, Preserves-exec, Preserves-wrap_error, Preserves-result_of, Preserves-query,
}
use slps_team.Friend.{FriendshipStatus, Friendship, Row, Tables}
use slps_team.Friend.Table.{select_row}
use slps_team.Friend.Store.{
  ensure_user_order, create_friendship, get_friendship, update_friendship_status, delete_friendship,
  get_friendship_status, row_or_not_found, status_or_unset,
}
use slps_team.Friend.Service.{
  Clients, send_friend_request, accept_friend_request, reject_friend_request, remove_friend,
  friendship_status_between, answer_request, refuse_by_status, not_found_or_db, or_unset,
  user_must_exist,
}
use slps_team.Friend.Constraints.{
  IsValid, insert_or_update-IsValid, update_rows-IsValid, delete_rows-IsValid,
}
use slps_team.Friend.Safety.{Call, sends, accepts, rejects, removes, perform, run}

module _ (a b : ℕ) where
  create_keeps : Preserves IsValid (create_friendship a b)
  unfolding create_friendship
  create_keeps =
      let (f, s) = ensure_user_order a b in
      Keeps-bind _ _
        (Preserves-wrap_error IsValid _ _ (
          Preserves-exec IsValid _
            λ now t n t' v e. insert_or_update-IsValid f s a FriendshipStatus.pending now t v e))
        (λ _. Keeps-pure _)

  update_keeps : (st : FriendshipStatus) → Preserves IsValid (update_friendship_status a b st)
  unfolding update_friendship_status
  update_keeps st =
      let (f, s) = ensure_user_order a b in
      Keeps-bind _ _
        (Preserves-wrap_error IsValid _ _
          (Preserves-exec IsValid _ λ now t n t' v e. update_rows-IsValid f s a st now t v e))
        (λ r.
          Keeps-bind _ _ (Preserves-wrap_error IsValid _ _ (Preserves-result_of IsValid r))
            (λ n. Keeps-return_if _ _))

  delete_keeps : Preserves IsValid (delete_friendship a b)
  unfolding delete_friendship
  delete_keeps =
      let (f, s) = ensure_user_order a b in
      Keeps-bind _ _
        (Preserves-wrap_error IsValid _ _
          (Preserves-exec IsValid _ λ now t n t' v e. delete_rows-IsValid f s now t v e))
        (λ r.
          Keeps-bind _ _ (Preserves-wrap_error IsValid _ _ (Preserves-result_of IsValid r))
            (λ n. Keeps-return_if _ _))

row_keeps : (r : Option Row) → Preserves IsValid (row_or_not_found r)
row_keeps none = Keeps-raise _
row_keeps (some r) = Keeps-pure _

status_tables :
    (x : Result Friendship × Db Tables) → IsValid x.1.tables → IsValid (status_or_unset x).1.tables
status_tables (ok f, db) v = v
status_tables (err e, db) v = v

unset_tables :
    (x : Result FriendshipStatus × Db Tables) → IsValid x.1.tables → IsValid (or_unset x).1.tables
unset_tables (ok f, db) v = v
unset_tables (err e, db) v = v

module _ (a b : ℕ) where
  get_keeps : Preserves IsValid (get_friendship a b)
  unfolding get_friendship
  get_keeps =
      let (f, s) = ensure_user_order a b in
      Keeps-bind _ _
        (Preserves-wrap_error IsValid _ _
          (Preserves-query IsValid λ t. some (select_row f s t.rows)))
        (λ r. row_keeps r)

  status_keeps : Preserves IsValid (friendship_status_between a b)
  unfolding friendship_status_between get_friendship_status
  status_keeps = record {
    at = λ db v. unset_tables _ (status_tables (get_friendship a b db) (get_keeps.at db v));
  }

answer_keeps :
    (st : FriendshipStatus) (u friend : ℕ) → Preserves IsValid (answer_request st u friend)
answer_keeps st u friend =
    Keeps-bind _ _ (Keeps-on_error not_found_or_db _ (get_keeps u friend))
      λ r. Keeps-bind _ _ (Keeps-return_if _ _) λ _. Keeps-or_return _ _ (update_keeps u friend st)

refuse_keeps : (a b : ℕ) (st : FriendshipStatus) → Preserves IsValid (refuse_by_status a b st)
refuse_keeps a b FriendshipStatus.pending =
    Keeps-bind _ _ (Keeps-or_return _ _ (get_keeps a b))
      λ r. Keeps-if (r.first_user_id == a) _ _ (Keeps-raise _) (Keeps-raise _)
refuse_keeps a b FriendshipStatus.accepted = Keeps-raise _
refuse_keeps a b FriendshipStatus.blocked = Keeps-raise _
refuse_keeps a b FriendshipStatus.rejected = Keeps-pure _
refuse_keeps a b FriendshipStatus.no_status = Keeps-pure _
refuse_keeps a b FriendshipStatus.unset = Keeps-pure _

module _ (clients : Clients) where
  exists_keeps : (u : ℕ) → Preserves IsValid (user_must_exist clients u)
  exists_keeps u =
      Keeps-bind _ _ (Keeps-or_return _ _ (Keeps-lift (clients.is_user_exists u)))
        λ b. Keeps-return_if _ _

  send_keeps : (a b : ℕ) → Preserves IsValid (send_friend_request clients a b)
  unfolding send_friend_request
  send_keeps a b = Keeps-bind _ _ (Keeps-return_if _ _) λ _. Keeps-bind _ _ (exists_keeps b) λ _.
      Keeps-bind _ _ (status_keeps a b)
        λ st. Keeps-bind _ _ (refuse_keeps a b st) λ _. Keeps-or_return _ _ (create_keeps a b)

  perform_keeps : (c : Call) → Preserves IsValid (perform clients c)
  unfolding perform accept_friend_request reject_friend_request remove_friend
  perform_keeps (sends a b) = send_keeps a b
  perform_keeps (accepts a b) = answer_keeps FriendshipStatus.accepted a b
  perform_keeps (rejects a b) = answer_keeps FriendshipStatus.rejected a b
  perform_keeps (removes a b) = Keeps-or_return _ _ (delete_keeps a b)

-- Whatever the calls and whatever fails, a table that meets its constraints still does: no two rows
-- of one pair, every pair in order and of two users that exist, every row's last actor one of the
-- two, and its status one of the enumeration.
pub run-IsValid :
    (clients : Clients) (cs : List Call) (db : Db Tables)
    → IsValid db.tables
    → IsValid (run clients cs db).tables
unfolding run
run-IsValid clients [] db v = v
run-IsValid clients (c ∷ cs) db v =
    run-IsValid clients cs (perform clients c db).1 ((perform_keeps clients c).at db v)
