-- ===== src/Post/Requests.antt =====
-- Histories of requests that change posts, in any environment.
use slps_team.Prelude.{
  ℕ, String, arith, ◌≡◌, refl, Bool, true, false, not, ap, sym, ◌∙◌, ◌&&◌, ◌==◌, ◌++◌, any, all,
  List, [], ◌∷◌, Option, none, some, Option-cases, inl, inr,
}
use slps_team.Flow.{pure, ◌>>=◌}
use slps_team.Flow.Keeps.{
  Keeps-bind, Keeps-pure, Keeps-raise, Keeps-return_if, Keeps-on_error, Keeps-or_return,
}
use slps_team.Flow.Meets.{
  Meets-bind, Meets-pure, Meets-raise, Meets-or_return, Meets-return_if, Meets-weaken, Keeps-Meets,
}
use slps_team.Sql.Keeps.{Preserves, Preserves-wrap_error, Preserves-query, Preserves-unchecked_rows}
use slps_team.Sql.Focus.{Takes-on_part}
use slps_team.Sql.Meets.{Takes, Takes-wrap_error, Takes-query}
use slps_team.Uploads.{File, Names}
use slps_team.Backend.Keeps.{
  Held, Spares, Held-on_db, Held-on_disk, Held-Spares, Held-or_clean, Spares-nothing,
}
use slps_team.Backend.Meets.{Leads, Leads-on_db, Meets-or_clean}
use slps_team.Community.{CommunityRow, Community, CommunityTables}
use slps_team.Community.Table.{has_id, select_community}
use slps_team.Community.Store.{get_community_by_id, community_with_count, community_or_not_found}
use slps_team.Errors.{Sentinel}
use slps_team.Post.{PostDb, PostTables}
use slps_team.Post.Table.{Media, media_rows, paths_of, joined_post, select_post}
use slps_team.Post.Store.{
  query_failure, get_media, with_media, get_post_by_id, post_or_not_found, create_post_row,
  update_post_row, delete_post_row, update_like_row,
}
use slps_team.Post.Service.{
  Clients, World, Call, no_post_or_db, existing_post, delete_paths, upload_any, change_files,
  communities, stored_community, may_post_in, create_post, update_post, delete_post, update_like,
}

pub data Request : Type 0 where
  creates : String → Option ℕ → List File → List File → Request
  updates : ℕ → String → List File → List File → Request
  deletes : ℕ → Request
  likes : ℕ → Request

-- A request and the user of its session.
pub record Asked : Type 0 where
  pub caller : ℕ
  pub request : Request

module _ (c : Clients) (names : Names) where
  unfoldable pub perform : ℕ → Request → Call (Unit {0})
  perform u (creates text community_id fs gs) =
      create_post c names u text community_id fs gs >>= λ _. pure tt
  perform u (updates id text fs gs) = update_post c names id u text fs gs
  perform u (deletes id) = delete_post id u
  perform u (likes id) = update_like u id

  unfoldable pub run_posts : List Asked → World → World
  run_posts [] w = w
  run_posts (r ∷ rs) w = run_posts rs (perform r.caller r.request w).1

pub Spares-delete_paths : (paths : List String) → Spares PostTables (delete_paths paths)
unfolding Spares delete_paths
Spares-delete_paths paths w = refl

pub Spares-delete_both :
    (a b : List String) → Spares PostTables (λ w. delete_paths a (delete_paths b w))
unfolding Spares delete_paths
Spares-delete_both a b w = refl

-- The right to post there, in the tables: the user is the creator of the community.
abbrev pub Allows : Option ℕ → ℕ → PostTables → Type 0
Allows none u t = Unit {0}
Allows (some id) u t = any (λ c. has_id id c && c.creator_id == u) t.community.communities ≡ true

-- What the transactions of the user `u` keep, those of a new post where it may be posted.
pub record IsClosed (P : PostTables → Type 0) (u : ℕ) : Type 0 where
  pub create_closed :
      (text : String) (community_id : Option ℕ) (fs gs : List String)
      → Takes
          (λ t. P t × Allows community_id u t)
          (create_post_row u text community_id fs gs)
          (λ _ t. P t)
          P
  pub update_closed :
      (id : ℕ) (text : String) (fs gs : List String) → Preserves P (update_post_row id u text fs gs)
  pub delete_closed : (id : ℕ) → Preserves P (delete_post_row id u)
  pub like_closed : (id : ℕ) → Preserves P (update_like_row u id)

some_inj : {A : Type 0} (x y : A) → some x ≡ some y → x ≡ y
some_inj x y e = cc

module _ (P : PostTables → Type 0) where
  pub get_media_keeps : (m : Media) (id : ℕ) → Preserves P (get_media m id)
  unfolding get_media
  get_media_keeps m id =
      Keeps-bind _ _
        (Preserves-wrap_error P (query_failure m) _
          (Preserves-query P λ t. some (paths_of id (media_rows m t))))
        (λ paths. Preserves-unchecked_rows P paths)

  pub with_media_keeps : (p : PostDb) → Preserves P (with_media p)
  unfolding with_media
  with_media_keeps p =
      Keeps-bind _ _ (get_media_keeps Media.attachment p.id)
        λ fs. Keeps-bind _ _ (get_media_keeps Media.photo p.id) λ gs. Keeps-pure _

  found_keeps : (found : Option PostDb) → Preserves P (post_or_not_found found)
  found_keeps none = Keeps-raise _
  found_keeps (some p) = Keeps-pure _

  pub get_post_by_id_keeps : (u id : ℕ) → Preserves P (get_post_by_id u id)
  unfolding get_post_by_id
  get_post_by_id_keeps u id =
      Keeps-bind _ _
        (Preserves-wrap_error P "failed to get post" _
          (Preserves-query P λ t. some (joined_post u t (select_post id t.posts))))
        (λ found. Keeps-bind _ _ (found_keeps found) λ p. with_media_keeps p)

  pub existing_post-Held : (u id : ℕ) → Held P (existing_post u id)
  unfolding existing_post
  existing_post-Held u id =
      Keeps-on_error no_post_or_db _ (Held-on_db P _ (get_post_by_id_keeps u id))

  module _ (names : Names) where
    upload_any-Held :
        (fs : List File) (clean : World → World)
        → Spares PostTables clean
        → Held P (upload_any names fs clean)
    unfolding upload_any
    upload_any-Held [] clean s = Keeps-pure _
    upload_any-Held (f ∷ fs) clean s = Held-or_clean P clean _ _ s (Held-on_disk P _)

    change_files-Held :
        (old : List String) (fs : List File) (clean : World → World)
        → Spares PostTables clean
        → Held P (change_files names old fs clean)
    unfolding change_files
    change_files-Held old [] clean s = Keeps-pure _
    change_files-Held old (f ∷ fs) clean s =
        Keeps-bind _ _ (Held-or_clean P clean _ _ s (Held-on_disk P _)) λ paths. Keeps-pure _

  -- The row that is found has the id, so its creator is the community's.
  selected_allows :
      (id u : ℕ) (cs : List CommunityRow) (r : CommunityRow)
      → select_community id cs ≡ some r
      → not (r.creator_id == u) ≡ false
      → any (λ c. has_id id c && c.creator_id == u) cs ≡ true
  selected_allows id u [] r e mine = absurd (cc)
  selected_allows id u (c ∷ cs) r e mine = ground (arith, e, mine, selected_allows id u cs r)

  pub may_post_in-Leads :
      (community_id : Option ℕ) (u : ℕ)
      → Leads P (may_post_in community_id u) (λ _ t. P t × Allows community_id u t) P
  unfolding may_post_in stored_community get_community_by_id
  may_post_in-Leads none u = Meets-pure tt λ w h. (h, tt)
  may_post_in-Leads (some id) u =
      Meets-bind _ _
        (Meets-or_return Sentinel.not_found _ (
          Leads-on_db P (λ c t. P t × Tells c t.community) P _
            (Takes-on_part communities P Tells _ reads)))
        λ c.
          Meets-weaken _ (λ w h. h) (λ _ w ((h, told), mine). (h, allowed w.db.tables c told mine))
            (λ w h. h) (Meets-return_if (not (c.creator_id == u)) Sentinel.access_denied λ w h. h.0)
    where
      Tells : Community → CommunityTables → Type 0
      Tells c t = community_with_count id t ≡ some c

      allowed :
          (t : PostTables) (c : Community)
          → community_with_count id t.community ≡ some c
          → not (c.creator_id == u) ≡ false
          → Allows (some id) u t
      allowed t c told mine = elim (Option-cases (select_community id t.community.communities)) [
        | inl nothing ↦ absurd (ground (arith, told, nothing))
        | inr (r, found) ↦
            selected_allows id u t.community.communities r found (ground (arith, told, found, mine))
      ]

      given :
          (t : CommunityTables) (found : Option Community)
          → Takes
              (λ v. (v ≡ t) × (community_with_count id t ≡ found))
              (community_or_not_found found)
              (λ c v. (v ≡ t) × Tells c t)
              (λ v. v ≡ t)
      given t none = Meets-raise _ λ db h. h.0
      given t (some c) = Meets-pure c λ db h. h

      reads :
          (t : CommunityTables)
          → Takes (λ v. v ≡ t) (get_community_by_id id) (λ c v. (v ≡ t) × Tells c t) (λ v. v ≡ t)
      reads t =
          Meets-bind _ _
            (Takes-wrap_error (λ v. v ≡ t)
              (λ found v. (v ≡ t) × (community_with_count id t ≡ found)) (λ v. v ≡ t)
              "failed to get community" _
              (Takes-query (λ v. v ≡ t) (λ found v. (v ≡ t) × (community_with_count id t ≡ found))
                (λ v. v ≡ t) _ (λ v h. h)
                λ v found h e. (h, ap (community_with_count id) (sym h) ∙ some_inj _ _ e)))
            (λ found. given t found)

  module _ (c : Clients) (names : Names) (u : ℕ) (closed : IsClosed P u) where
    create_post-Held :
        (text : String) (community_id : Option ℕ) (fs gs : List File)
        → Held P (create_post c names u text community_id fs gs)
    unfolding create_post
    create_post-Held text community_id fs gs =
        Keeps-bind _ _ (Keeps-return_if (not (c.valid_text text)) Sentinel.invalid_input) λ _.
          Keeps-bind _ _ (upload_any-Held names fs (λ w. w) (Spares-nothing PostTables)) λ a.
            Keeps-bind _ _ (upload_any-Held names gs (delete_paths a) (Spares-delete_paths a)) λ b.
              Keeps-Meets _ (
                Meets-bind _ _ (may_post_in-Leads community_id u) λ _.
                  Meets-bind _ _
                    (Meets-or_clean (λ w. P w.db.tables × Allows community_id u w.db.tables)
                      (λ _ w. P w.db.tables) P (λ w. delete_paths b (delete_paths a w)) Sentinel.db
                      _ (Spares-delete_both b a)
                      (Leads-on_db (λ t. P t × Allows community_id u t) (λ _ t. P t) P _
                        (closed.create_closed text community_id a b)))
                    λ row. Meets-pure _ λ w h. h)

    update_post-Held :
        (id : ℕ) (text : String) (fs gs : List File) → Held P (update_post c names id u text fs gs)
    unfolding update_post
    update_post-Held id text fs gs =
        Keeps-bind _ _ (Keeps-return_if (not (c.valid_text text)) Sentinel.invalid_input) λ _.
          Keeps-bind _ _ (existing_post-Held u id) λ existing.
            Keeps-bind _ _ (Keeps-return_if (not (existing.author_id == u)) Sentinel.access_denied)
              λ _.
                Keeps-bind _ _
                  (change_files-Held names existing.attachments fs (λ w. w)
                    (Spares-nothing PostTables))
                  λ a.
                    Keeps-bind _ _
                      (change_files-Held names existing.photos gs _ (Spares-delete_paths _))
                      λ b.
                        Keeps-bind _ _
                          (Held-or_clean P _ Sentinel.db _ (Spares-delete_both _ _)
                            (Held-on_db P _ (closed.update_closed id text a.paths b.paths)))
                          λ _. Held-Spares P tt _ (Spares-delete_both b.replaced a.replaced)

    delete_post-Held : (id : ℕ) → Held P (delete_post id u)
    unfolding delete_post
    delete_post-Held id = Keeps-bind _ _ (existing_post-Held u id) λ existing.
        Keeps-bind _ _ (Keeps-return_if (not (existing.author_id == u)) Sentinel.access_denied) λ _.
          Keeps-bind _ _ (Keeps-or_return Sentinel.db _ (Held-on_db P _ (closed.delete_closed id)))
            λ _. Held-Spares P tt _ (Spares-delete_paths (existing.attachments ++ existing.photos))

    perform-Held : (r : Request) → Held P (perform c names u r)
    unfolding perform update_like
    perform-Held (creates text community_id fs gs) =
        Keeps-bind _ _ (create_post-Held text community_id fs gs) λ _. Keeps-pure _
    perform-Held (updates id text fs gs) = update_post-Held id text fs gs
    perform-Held (deletes id) = delete_post-Held id
    perform-Held (likes id) = Keeps-or_return Sentinel.db _ (Held-on_db P _ (closed.like_closed id))

  -- What the transactions of all the callers keep, a history keeps.
  pub run_keeps :
      (c : Clients) (names : Names) (may_call : ℕ → Bool)
      → ((u : ℕ) → may_call u ≡ true → IsClosed P u)
      → (rs : List Asked) → all (λ r. may_call r.caller) rs ≡ true
      → (w : World) → P w.db.tables
      → P (run_posts c names rs w).db.tables
  unfolding run_posts
  run_keeps c names may_call closed [] e w h = h
  run_keeps c names may_call closed (r ∷ rs) e w h =
      let first : may_call r.caller ≡ true = ground (arith, e) in
      let rest : all (λ (q : Asked). may_call q.caller) rs ≡ true = ground (arith, e) in
      run_keeps c names may_call closed rs rest _
        ((perform-Held c names r.caller (closed r.caller first) r.request).at w h)
