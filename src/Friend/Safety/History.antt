-- ===== src/Friend/Safety/History.antt =====
-- Histories of calls in any environment: who made a friendship.
use slps_team.Prelude.{
  ℕ, ◌≡◌, ◌≢◌, refl, subst, arith, Bool, true, false, ◌==◌, ◌&&◌, ◌||◌, inl, inr, List, [], ◌∷◌,
  any, none, some, Bool-cases,
}
use slps_team.Sql.{Db}
use slps_team.Friend.{FriendshipStatus, Tables}
use slps_team.Friend.Service.{Clients}
use slps_team.Friend.Laws.{Standing}
use slps_team.Friend.Lifecycle.{standing, same_pair, done, on_send, on_answer, on_remove}
use slps_team.Friend.Lifecycle.Rows.{standing_same}
use slps_team.Friend.Safety.{
  Call, sends, accepts, rejects, removes, caller, partner, verdict, Follows, perform, run,
}
use slps_team.Friend.Safety.Send.{send-Follows}
use slps_team.Friend.Safety.Answer.{accept-Follows, reject-Follows, remove-Follows}

-- Whatever fails, a call leaves the tables as they were, or moves the pair of the call, and no
-- other, to the standing that the abstract machine gives it.
perform-Follows :
    (clients : Clients) (c : Call) (db : Db Tables)
    → Follows c db.tables (perform clients c db).1.tables
unfolding perform
perform-Follows clients (sends a b) db = send-Follows clients a b db
perform-Follows clients (accepts a b) db = accept-Follows a b db
perform-Follows clients (rejects a b) db = reject-Follows a b db
perform-Follows clients (removes a b) db = remove-Follows a b db

abbrev pub is_send : Call → Bool
is_send (sends a b) = true
is_send _ = false

abbrev pub is_accept : Call → Bool
is_accept (accepts a b) = true
is_accept _ = false

abbrev about : ℕ → ℕ → Call → Bool
about x y c = same_pair (caller c) (partner c) x y

send_done :
    (a : ℕ) (z z' : Standing) → on_send a z ≡ done z' → z' ≡ some (FriendshipStatus.pending, a)
send_done a z z' e = ground arith

remove_done : (z z' : Standing) → on_remove z ≡ done z' → z' ≡ none
remove_done z z' e = ground arith

answer_done :
    (st : FriendshipStatus) (u : ℕ) (z z' : Standing)
    → on_answer st u z ≡ done z'
    → (sender : ℕ) × (z ≡ some (FriendshipStatus.pending, sender))
      × (sender ≢ u)
      × (z' ≡ some (st, u))
answer_done st u none z' e = absurd (cc)
answer_done st u (some (FriendshipStatus.pending, sender)) z' e =
    (sender, refl, ground arith, ground arith)
answer_done st u (some (st', w)) z' e = absurd (cc)

-- Among the calls, user `u` has asked for, or agreed to, a friendship of the pair.
abbrev pub asked : List Call → ℕ → ℕ → ℕ → Bool
asked cs x y u = any (λ c. is_send c && caller c == u && same_pair (caller c) (partner c) x y) cs

abbrev pub agreed : List Call → ℕ → ℕ → ℕ → Bool
agreed cs x y u = any (λ c. is_accept c && caller c == u && same_pair (caller c) (partner c) x y) cs

-- What the past must hold for a pair to stand where it does.
abbrev pub HasBasis : List Call → ℕ → ℕ → Standing → Type 0
HasBasis past x y (some (FriendshipStatus.pending, s)) = asked past x y s ≡ true
HasBasis past x y (some (FriendshipStatus.accepted, u)) =
    (s : ℕ) × (asked past x y s ≡ true) × (agreed past x y u ≡ true) × (s ≢ u)
HasBasis past x y _ = Unit {0}

module _ (c : Call) (past : List Call) (x y : ℕ) where
  HasBasis-cons : (z : Standing) → HasBasis past x y z → HasBasis (c ∷ past) x y z
  HasBasis-cons none h = tt
  HasBasis-cons (some (FriendshipStatus.pending, s)) h = ground arith
  HasBasis-cons (some (FriendshipStatus.accepted, u)) (s, a, b, ne) =
      (s, ground arith, ground arith, ne)
  HasBasis-cons (some (st, u)) h = tt

basis_of :
    (c : Call) (past : List Call) (x y s : ℕ)
    → asked past x y s ≡ true
    → asked (c ∷ past) x y s ≡ true
basis_of c past x y s h = ground arith

module _ (past : List Call) (x y a b : ℕ) (p : same_pair a b x y ≡ true) where
  HasBasis-send : (z z' : Standing) → on_send a z ≡ done z' → HasBasis (sends a b ∷ past) x y z'
  HasBasis-send z z' v = rw (send_done a z z' v) (ground arith)

  HasBasis-accept :
      (z z' : Standing)
      → on_answer FriendshipStatus.accepted a z ≡ done z'
      → HasBasis past x y z
      → HasBasis (accepts a b ∷ past) x y z'
  HasBasis-accept z z' v h =
      let (sender, was, other, now) = answer_done FriendshipStatus.accepted a z z' v in
      rw now (
        sender,
        basis_of (accepts a b) past x y sender (subst (HasBasis past x y) was h),
        ground arith,
        other,
      )

  HasBasis-reject :
      (z z' : Standing)
      → on_answer FriendshipStatus.rejected a z ≡ done z'
      → HasBasis (rejects a b ∷ past) x y z'
  HasBasis-reject z z' v =
      let (sender, was, other, now) = answer_done FriendshipStatus.rejected a z z' v in rw now tt

  HasBasis-remove : (z z' : Standing) → on_remove z ≡ done z' → HasBasis (removes a b ∷ past) x y z'
  HasBasis-remove z z' v = rw (remove_done z z' v) tt

HasBasis-verdict :
    (c : Call) (past : List Call) (x y : ℕ) (z z' : Standing)
    → same_pair (caller c) (partner c) x y ≡ true
    → verdict c z ≡ done z'
    → HasBasis past x y z
    → HasBasis (c ∷ past) x y z'
HasBasis-verdict (sends a b) past x y z z' p v h = HasBasis-send past x y a b p z z' v
HasBasis-verdict (accepts a b) past x y z z' p v h = HasBasis-accept past x y a b p z z' v h
HasBasis-verdict (rejects a b) past x y z z' p v h = HasBasis-reject past x y a b p z z' v
HasBasis-verdict (removes a b) past x y z z' p v h = HasBasis-remove past x y a b p z z' v

HasBasis-Follows :
    (c : Call) (past : List Call) (x y : ℕ) (t t' : Tables)
    → Follows c t t'
    → HasBasis past x y (standing x y t)
    → HasBasis (c ∷ past) x y (standing x y t')
HasBasis-Follows c past x y t t' (inl same) h =
    rw same (HasBasis-cons c past x y (standing x y t) h)
HasBasis-Follows c past x y t t' (inr (z, says, moves)) h =
    elim (Bool-cases (same_pair (caller c) (partner c) x y)) [
      | inr other ↦ rw (moves x y, other) (HasBasis-cons c past x y (standing x y t) h)
      | inl same ↦
          rw (moves x y, same)
            (HasBasis-verdict c past x y _ z same says
              (rw (← standing_same (caller c) (partner c) t x y same) h))
    ]

-- The past after more calls, the latest first.
abbrev pub history : List Call → List Call → List Call
history past [] = past
history past (c ∷ cs) = history (c ∷ past) cs

run-HasBasis :
    (clients : Clients) (x y : ℕ) (cs past : List Call) (db : Db Tables)
    → HasBasis past x y (standing x y db.tables)
    → HasBasis (history past cs) x y (standing x y (run clients cs db).tables)
unfolding run
run-HasBasis clients x y [] past db h = h
run-HasBasis clients x y (c ∷ cs) past db h =
    run-HasBasis clients x y cs (c ∷ past) (perform clients c db).1
      (HasBasis-Follows c past x y db.tables _ (perform-Follows clients c db) h)

any-history :
    (p : Call → Bool) (cs past : List Call) → any p (history past cs) ≡ (any p cs || any p past)
any-history p [] past = refl
any-history p (c ∷ cs) past = ground (arith, any-history p cs (c ∷ past))

standing_vacant : (x y : ℕ) (t : Tables) → t.rows ≡ [] → standing x y t ≡ none
unfolding standing
standing_vacant x y t e = rw e refl

any-history_nil :
    (p : Call → Bool) (cs : List Call) → any p (history [] cs) ≡ true → any p cs ≡ true
any-history_nil p cs h = ground (arith, any-history p cs [])

-- Starting from an empty table, whatever the calls and whatever fails: where two users have become
-- friends, one of them has asked for it, and the other has accepted.
pub friends_have_agreed :
    (clients : Clients) (cs : List Call) (db : Db Tables) (x y u : ℕ)
    → db.tables.rows ≡ []
    → standing x y (run clients cs db).tables ≡ some (FriendshipStatus.accepted, u)
    → (s : ℕ) × (asked cs x y s ≡ true) × (agreed cs x y u ≡ true) × (s ≢ u)
friends_have_agreed clients cs db x y u empty e =
    let start : HasBasis [] x y (standing x y db.tables) =
      rw (standing_vacant x y db.tables empty) tt in
    let (s, a, b, ne) =
      subst (HasBasis (history [] cs) x y) e (run-HasBasis clients x y cs [] db start) in
    (s, any-history_nil _ cs a, any-history_nil _ cs b, ne)
