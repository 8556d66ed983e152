-- ===== src/Community/Safety/Others.antt =====
-- What requests of other users leave alone, in any environment.
use slps_team.Prelude.{
  ℕ, suc, String, arith, ◌≡◌, refl, Bool, true, false, not, ◌&&◌, ◌||◌, ◌==◌, ltb, any, all, keep,
  map, List, [], ◌∷◌, Option, if◌then◌else◌, Bool-cases, inl, inr,
}
use slps_team.Uploads.{Names}
use slps_team.Community.{CommunityRow, Subscription, CommunityTables}
use slps_team.Community.Table.{
  has_id, owned_by, is_subscription, revised, insert_community, update_communities,
  delete_communities, insert_subscription, delete_subscriptions,
}
use slps_team.Community.Service.{Clients, World}
use slps_team.Community.Safety.{Asked, run_requests, IsClosed}
use slps_team.Community.Safety.Keeps.{run_keeps}

abbrev pub created_by : ℕ → List CommunityRow → List CommunityRow
created_by o cs = keep (λ c. c.creator_id == o) cs

abbrev pub IsCreated : List CommunityRow → ℕ → CommunityTables → Type 0
IsCreated cs o t = created_by o t.communities ≡ cs

module _ (o u : ℕ) (other : not (u == o) ≡ true) where
  created-map :
      (name description : String) (a b : Option String) (now id : ℕ) (cs : List CommunityRow)
      → created_by o
          (map (λ c. if owned_by id u c then revised name description a b now c else c) cs)
        ≡ created_by o cs
  created-map name description a b now id [] = refl
  created-map name description a b now id (c ∷ cs) =
      ground (arith, other, created-map name description a b now id cs)

  created-away :
      (id : ℕ) (cs : List CommunityRow)
      → created_by o (keep (λ c. not (owned_by id u c)) cs) ≡ created_by o cs
  created-away id [] = refl
  created-away id (c ∷ cs) = ground (arith, other, created-away id cs)

  IsCreated-IsClosed : (cs : List CommunityRow) → IsClosed (IsCreated cs o) u
  unfolding insert_community update_communities delete_communities insert_subscription
      delete_subscriptions
  IsCreated-IsClosed cs = record {
    insert_closed = λ name description a b now t row t' h e. ground (arith, other, h, e);
    update_closed = λ id name description a b now t n t' h e.
        ground (arith, h, e, created-map name description a b now id t.communities);
    delete_closed = λ id now t n t' h e. ground (arith, h, e, created-away id t.communities);
    join_closed = λ id now t n t' h e. ground (arith, h, e);
    leave_closed = λ id now t n t' h e. ground (arith, h, e);
  }

-- Whatever is asked, whatever the clients answer and whatever fails: if none of the requests is of
-- the user `o`, the rows of the communities that `o` created are all there, in order and as they
-- were, and no row has become one of `o`'s.
pub run_requests-created :
    (names : Names) (c : Clients) (o : ℕ) (rs : List Asked) (w : World)
    → all (λ r. not (r.caller == o)) rs ≡ true
    → created_by o (run_requests names c rs w).db.tables.communities
      ≡ created_by o w.db.tables.communities
run_requests-created names c o rs w e =
    run_keeps (IsCreated (created_by o w.db.tables.communities) o) names c (λ u. not (u == o))
      (λ u other. IsCreated-IsClosed o u other (created_by o w.db.tables.communities)) rs e w refl

-- Whose consent a subscription needs: the subscriber's, and the creator's to end it with the
-- community.
abbrev pub only_of : ℕ → ℕ → List CommunityRow → Bool
only_of id o cs = any (has_id id) cs && all (λ c. not (has_id id c) || c.creator_id == o) cs

record IsKept (id o v : ℕ) (joined : Bool) (t : CommunityTables) : Type 0 where
  kept : any (is_subscription id v) t.subscriptions ≡ joined
  created : only_of id o t.communities ≡ true
  below : all (λ c. ltb c.id t.next_id) t.communities ≡ true

module _ (id o v u : ℕ) (other : not (u == o) && not (u == v) ≡ true) where
  kept-away :
      (gone : ℕ) (ss : List Subscription) (deleted : Bool)
      → deleted && id == gone ≡ false
      → any (is_subscription id v) (keep (λ s. not (deleted && s.community_id == gone)) ss)
        ≡ any (is_subscription id v) ss
  kept-away gone [] deleted e = refl
  kept-away gone (s ∷ ss) deleted e = ground (arith, e, kept-away gone ss deleted)

  kept-leaving :
      (left : ℕ) (ss : List Subscription)
      → any (is_subscription id v) (keep (λ s. not (is_subscription left u s)) ss)
        ≡ any (is_subscription id v) ss
  kept-leaving left [] = refl
  kept-leaving left (s ∷ ss) = ground (arith, other, kept-leaving left ss)

  any_id-map :
      (name description : String) (a b : Option String) (now r : ℕ) (cs : List CommunityRow)
      → any
          (has_id id)
          (map (λ c. if owned_by r u c then revised name description a b now c else c) cs)
        ≡ any (has_id id) cs
  any_id-map name description a b now r [] = refl
  any_id-map name description a b now r (c ∷ cs) =
      ground (arith, any_id-map name description a b now r cs)

  module _ (p : ℕ → ℕ → Bool) where
    abbrev all_rows : List CommunityRow → Bool
    all_rows cs = all (λ c. p c.id c.creator_id) cs

    all_rows-map :
        (name description : String) (a b : Option String) (now r : ℕ) (cs : List CommunityRow)
        → all_rows (map (λ c. if owned_by r u c then revised name description a b now c else c) cs)
          ≡ all_rows cs
    all_rows-map name description a b now r [] = refl
    all_rows-map name description a b now r (c ∷ cs) =
        ground (arith, all_rows-map name description a b now r cs)

    all_rows-away :
        (r : ℕ) (cs : List CommunityRow)
        → all_rows cs ≡ true
        → all_rows (keep (λ c. not (owned_by r u c)) cs) ≡ true
    all_rows-away r [] e = refl
    all_rows-away r (c ∷ cs) e = ground (arith, e, all_rows-away r cs)

  any_id-away :
      (r : ℕ) (cs : List CommunityRow)
      → all (λ c. not (has_id id c) || c.creator_id == o) cs ≡ true
      → any (has_id id) (keep (λ c. not (owned_by r u c)) cs) ≡ any (has_id id) cs
  any_id-away r [] e = refl
  any_id-away r (c ∷ cs) e = ground (arith, e, other, any_id-away r cs)

  not_owner :
      (cs : List CommunityRow)
      → all (λ c. not (has_id id c) || c.creator_id == o) cs ≡ true
      → any (owned_by id u) cs ≡ false
  not_owner [] e = refl
  not_owner (c ∷ cs) e = ground (arith, e, other, not_owner cs)

  not_deleted :
      (gone : ℕ) (cs : List CommunityRow)
      → all (λ c. not (has_id id c) || c.creator_id == o) cs ≡ true
      → any (owned_by gone u) cs && id == gone ≡ false
  not_deleted gone cs e = elim (Bool-cases (id == gone)) [
    | inl same ↦ let g : gone ≡ id = ground (arith, same) in rw g (ground (arith, not_owner cs e))
    | inr differ ↦ ground (arith, differ)
  ]

  fresh_id :
      (next : ℕ) (cs : List CommunityRow)
      → all (λ c. ltb c.id next) cs ≡ true
      → any (has_id id) cs ≡ true
      → ltb id next ≡ true
  fresh_id next [] e h = absurd (cc)
  fresh_id next (c ∷ cs) e h = ground (arith, e, h, fresh_id next cs)

  below_next :
      (next : ℕ) (cs : List CommunityRow)
      → all (λ c. ltb c.id next) cs ≡ true
      → all (λ c. ltb c.id (suc next)) cs ≡ true
  below_next next [] e = refl
  below_next next (c ∷ cs) e = ground (arith, e, below_next next cs)

  abbrev is_theirs : ℕ → ℕ → Bool
  is_theirs i creator = not (i == id) || creator == o

  IsKept-IsClosed : (joined : Bool) → IsClosed (IsKept id o v joined) u
  unfolding insert_community update_communities delete_communities insert_subscription
      delete_subscriptions
  IsKept-IsClosed joined = record {
    insert_closed = λ name description a b now t row t' h e. record {
      kept = ground (arith, h.kept, e);
      created = ground (arith, h.created, h.below, e, fresh_id t.next_id t.communities);
      below = ground (arith, h.below, e, below_next t.next_id t.communities);
    };
    update_closed = λ r name description a b now t n t' h e. record {
      kept = ground (arith, h.kept, e);
      created = ground (
        arith,
        h.created,
        e,
        any_id-map name description a b now r t.communities,
        all_rows-map is_theirs name description a b now r t.communities,
      );
      below = ground (
        arith,
        h.below,
        e,
        all_rows-map (λ (i creator : ℕ). ltb i t.next_id) name description a b now r t.communities,
      );
    };
    delete_closed = λ r now t n t' h e.
        let theirs : all (λ c. not (has_id id c) || c.creator_id == o) t.communities ≡ true =
          ground (arith, h.created) in
        record {
          kept = ground (
            arith,
            h.kept,
            e,
            kept-away r t.subscriptions (any (owned_by r u) t.communities)
                (not_deleted r t.communities theirs),
          );
          created = ground (
            arith,
            h.created,
            e,
            any_id-away r t.communities theirs,
            all_rows-away is_theirs r t.communities,
          );
          below = ground (
            arith,
            h.below,
            e,
            all_rows-away (λ (i creator : ℕ). ltb i t.next_id) r t.communities,
          );
        };
    join_closed = λ r now t n t' h e. record {
      kept = ground (arith, other, h.kept, e);
      created = ground (arith, h.created, e);
      below = ground (arith, h.below, e);
    };
    leave_closed = λ r now t n t' h e. record {
      kept = ground (arith, h.kept, e, kept-leaving r t.subscriptions);
      created = ground (arith, h.created, e);
      below = ground (arith, h.below, e);
    };
  }

-- Whatever is asked, whatever the clients answer and whatever fails: for a community that exists,
-- whose only creator is `o`, where all ids are below the next one, and if none of the requests is of
-- `o` or of the user `v`, then `v` is subscribed to the community afterwards exactly when before, and
-- the community is still there and `o`'s.
pub run_requests-subscription :
    (names : Names) (c : Clients) (id o v : ℕ) (rs : List Asked) (w : World)
    → only_of id o w.db.tables.communities ≡ true
    → all (λ c. ltb c.id w.db.tables.next_id) w.db.tables.communities ≡ true
    → all (λ r. not (r.caller == o) && not (r.caller == v)) rs ≡ true
    → (any (is_subscription id v) (run_requests names c rs w).db.tables.subscriptions
        ≡ any (is_subscription id v) w.db.tables.subscriptions)
      × (only_of id o (run_requests names c rs w).db.tables.communities ≡ true)
run_requests-subscription names c id o v rs w only below e =
    let joined : Bool = any (is_subscription id v) w.db.tables.subscriptions in
    let after : IsKept id o v joined (run_requests names c rs w).db.tables =
      run_keeps (IsKept id o v joined) names c (λ u. not (u == o) && not (u == v))
        (λ u other. IsKept-IsClosed id o v u other joined) rs e w
        (record { kept = refl; created = only; below = below }) in
    (after.kept, after.created)
