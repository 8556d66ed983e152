-- ===== src/Community/Safety/Keeps.antt =====
-- A request of a user runs that user's statements only: what they keep, it keeps.
use slps_team.Prelude.{ℕ, String, ◌≡◌, Bool, true, all, arith, List, [], ◌∷◌, Option, none, some}
use slps_team.Errors.{Sentinel}
use slps_team.Flow.Keeps.{
  Keeps-bind, Keeps-pure, Keeps-return_if, Keeps-raise, Keeps-or_return, Keeps-on_error, Keeps-lift,
}
use slps_team.Sql.Keeps.{
  Preserves, Preserves-exec, Preserves-wrap_error, Preserves-result_of, Preserves-query,
}
use slps_team.Uploads.{File, Names}
use slps_team.Backend.{on_db}
use slps_team.Backend.Keeps.{
  Held, Spares, Held-on_db, Held-on_disk, Held-Spares, Held-or_clean, Spares-nothing,
  Spares-discard, Spares-discards,
}
use slps_team.Community.{Community, CommunityTables}
use slps_team.Community.Store.{
  create_community_row, update_community_row, delete_community_row, get_community_by_id,
  subscribe_row, unsubscribe_row, community_or_not_found, community_with_count,
}
use slps_team.Community.Service.{
  Clients, World, missing_or_db, existing_community, take_picture, create_community,
  update_community, delete_community, subscribe, unsubscribe, user_must_exist,
}
use slps_team.Community.Safety.{
  Request, creates, updates, deletes, subscribes, unsubscribes, Asked, perform, run_requests,
  IsClosed,
}

module _ (P : CommunityTables → Type 0) where
  found_held : (found : Option Community) → Preserves P (community_or_not_found found)
  found_held none = Keeps-raise _
  found_held (some c) = Keeps-pure _

  existing-Held : (id : ℕ) → Held P (existing_community id)
  unfolding existing_community get_community_by_id
  existing-Held id = Keeps-on_error missing_or_db _ (
      Held-on_db P _ (
        Keeps-bind _ _
          (Preserves-wrap_error P _ _ (Preserves-query P λ t. some (community_with_count id t)))
          (λ found. found_held found)))

  picture-Held :
      (names : Names) (old : Option String) (file : Option File) (clean : World → World)
      → Spares CommunityTables clean
      → Held P (take_picture names old file clean)
  unfolding take_picture
  picture-Held names old none clean s = Keeps-pure _
  picture-Held names old (some file) clean s =
      Keeps-bind _ _ (Held-or_clean P clean Sentinel.service _ s (Held-on_disk P _))
        (λ path. Keeps-pure _)

  module _ (u : ℕ) (closed : IsClosed P u) where
    subscribe_row_keeps : (id : ℕ) → Preserves P (subscribe_row id u)
    unfolding subscribe_row
    subscribe_row_keeps id =
        Keeps-bind _ _
          (Preserves-wrap_error P _ _
            (Preserves-exec P _ λ now t n t' h e. closed.join_closed id now t n t' h e))
          (λ _. Keeps-pure _)

    unsubscribe_row_keeps : (id : ℕ) → Preserves P (unsubscribe_row id u)
    unfolding unsubscribe_row
    unsubscribe_row_keeps id =
        Keeps-bind _ _
          (Preserves-wrap_error P _ _
            (Preserves-exec P _ λ now t n t' h e. closed.leave_closed id now t n t' h e))
          (λ r.
            Keeps-bind _ _ (Preserves-wrap_error P _ _ (Preserves-result_of P r))
              (λ n. Keeps-return_if _ _))

    delete_row_keeps : (id : ℕ) → Preserves P (delete_community_row id u)
    unfolding delete_community_row
    delete_row_keeps id =
        Keeps-bind _ _
          (Preserves-wrap_error P _ _
            (Preserves-exec P _ λ now t n t' h e. closed.delete_closed id now t n t' h e))
          (λ r.
            Keeps-bind _ _ (Preserves-wrap_error P _ _ (Preserves-result_of P r))
              (λ n. Keeps-return_if _ _))

    module _ (name description : String) (a b : Option String) where
      update_row_keeps : (id : ℕ) → Preserves P (update_community_row id u name description a b)
      unfolding update_community_row
      update_row_keeps id =
          Keeps-bind _ _
            (Preserves-wrap_error P _ _ (
              Preserves-exec P _
                λ now t n t' h e. closed.update_closed id name description a b now t n t' h e))
            (λ n. Keeps-return_if _ _)

      create_row_keeps : Preserves P (create_community_row name description u a b)
      unfolding create_community_row
      create_row_keeps = Preserves-wrap_error P _ _ (
          Preserves-exec P _
            λ now t row t' h e. closed.insert_closed name description a b now t row t' h e)

    module _ (names : Names) (c : Clients) where
      exists_Held : Held P (user_must_exist names c u)
      exists_Held =
          Keeps-bind _ _ (Keeps-or_return _ _ (Keeps-lift (c.is_user_exists u)))
            λ b. Keeps-return_if _ _

      joined-Held : (id : ℕ) (a : Unit {0}) → Held P (on_db (subscribe_row id u))
      joined-Held id a = Held-on_db P _ (subscribe_row_keeps id)

      perform-Held : (r : Request) → Held P (perform names c u r)
      unfolding perform create_community update_community delete_community subscribe unsubscribe
      perform-Held (creates req avatar cover) =
          Keeps-bind _ _
            (Keeps-bind _ _ (Keeps-return_if _ _) λ _.
              Keeps-bind _ _ (picture-Held names none avatar _ (Spares-nothing _)) λ a.
                Keeps-bind _ _ (picture-Held names none cover _ (Spares-discard _ a.uploaded)) λ b.
                  Keeps-bind _ _
                    (Held-or_clean P _ _ _ (Spares-discards _ b.uploaded a.uploaded)
                      (Held-on_db P _ (create_row_keeps req.name req.description a.path b.path)))
                    λ row. record { at = λ w h. (joined-Held row.id tt).at w h })
            (λ _. Keeps-pure _)
      perform-Held (updates id req avatar cover) = Keeps-bind _ _ (Keeps-return_if _ _) λ _.
          Keeps-bind _ _ (existing-Held id) λ old. Keeps-bind _ _ (Keeps-return_if _ _) λ _.
            Keeps-bind _ _ (picture-Held names old.avatar_path avatar _ (Spares-nothing _)) λ a.
              Keeps-bind _ _
                (picture-Held names old.cover_path cover _ (Spares-discard _ a.uploaded))
                λ b.
                  Keeps-bind _ _
                    (Held-or_clean P _ _ _ (Spares-discards _ b.uploaded a.uploaded)
                      (Held-on_db P _ (update_row_keeps req.name req.description a.path b.path id)))
                    λ _. Held-Spares P tt _ (Spares-discards _ b.replaced a.replaced)
      perform-Held (deletes id) = Keeps-bind _ _ (existing-Held id) λ old.
          Keeps-bind _ _ (Keeps-return_if _ _) λ _.
            Keeps-bind _ _ (Keeps-or_return _ _ (Held-on_db P _ (delete_row_keeps id)))
              λ _. Held-Spares P tt _ (Spares-discards _ old.cover_path old.avatar_path)
      perform-Held (subscribes id) = Keeps-bind _ _ (existing-Held id) λ _.
          Keeps-bind _ _ exists_Held
            λ _. Keeps-or_return _ _ (Held-on_db P _ (subscribe_row_keeps id))
      perform-Held (unsubscribes id) =
          Keeps-on_error missing_or_db _ (Held-on_db P _ (unsubscribe_row_keeps id))

  -- A history keeps what every caller's statements keep.
  pub run_keeps :
      (names : Names) (c : Clients) (allowed : ℕ → Bool)
      → ((u : ℕ) → allowed u ≡ true → IsClosed P u)
      → (rs : List Asked) → all (λ r. allowed r.caller) rs ≡ true
      → (w : World) → P w.db.tables
      → P (run_requests names c rs w).db.tables
  unfolding run_requests
  run_keeps names c allowed closed [] _ w h = h
  run_keeps names c allowed closed (r ∷ rs) e w h =
      let first : allowed r.caller ≡ true = ground (arith, e) in
      let rest : all (λ (q : Asked). allowed q.caller) rs ≡ true = ground (arith, e) in
      run_keeps names c allowed closed rs rest _
        ((perform-Held r.caller (closed r.caller first) names c r.request).at w h)
