-- ===== src/Chat/Keys.antt =====
-- The key of chat_members, and the rows of two users.
use slps_team.Prelude.{
  ℕ, ◌+◌, ap, sym, subst, ◌∙◌, ◌≡◌, refl, arith, Bool, true, false, not, ◌&&◌, ◌||◌, ◌==◌, ltb, any,
  all, keep, map, is_one_of, zero, suc, ◌≢◌, tally, ◌⊎◌, List, [], ◌∷◌, Option, some, Bool-cases,
  inl, inr,
}
use slps_team.Chat.{MemberRow, ChatTables}
use slps_team.Chat.Table.{is_member, has_both, at_or, pick_from}
use slps_team.Chat.Store.{ordered_ids}

abbrev pub distinct_members : List MemberRow → Bool
distinct_members [] = true
distinct_members (m ∷ ms) = not (any (is_member m.chat_id m.member_id) ms) && distinct_members ms

-- The key of chat_members, and that its chats have been made.
pub record IsKeyed (t : ChatTables) : Type 0 where
  pub keys : distinct_members t.members ≡ true
  pub made : all (λ m. ltb m.chat_id t.next_chat) t.members ≡ true

module _ (x y : ℕ) where
  pub no_row :
      (n : ℕ) (ms : List MemberRow)
      → all (λ m. ltb m.chat_id n) ms ≡ true
      → (any (λ m. is_member n x m || is_member n y m) ms ≡ false)
        × (tally (λ m. m.chat_id == n && (m.member_id == x || m.member_id == y)) ms ≡ 0)
  no_row n [] e = (refl, refl)
  no_row n (m ∷ ms) e = ground (arith, e, no_row n ms)

  none_tally :
      (id u : ℕ) (ms : List MemberRow)
      → any (is_member id u) ms ≡ false
      → tally (is_member id u) ms ≡ 0
  none_tally id u [] e = refl
  none_tally id u (m ∷ ms) e = ground (arith, e, none_tally id u ms)

  one_at_most :
      (id u : ℕ) (ms : List MemberRow)
      → distinct_members ms ≡ true
      → (tally (is_member id u) ms ≡ 0)
        ⊎ ((tally (is_member id u) ms ≡ 1) × (any (is_member id u) ms ≡ true))
  one_at_most id u [] e = inl refl
  one_at_most id u (m ∷ ms) e = elim (Bool-cases (is_member id u m)) [
    | inl it ↦
        let chat : m.chat_id ≡ id = ground (arith, it) in
        let member : m.member_id ≡ u = ground (arith, it) in
        let rest : any (is_member id u) ms ≡ false =
          subst (λ i. any (is_member i u) ms ≡ false) chat
            (subst (λ v. any (is_member m.chat_id v) ms ≡ false) member (ground (arith, e))) in
        inr (ground (arith, it, none_tally id u ms rest), ground (arith, it))
    | inr other ↦ ground (arith, other, e, one_at_most id u ms)
  ]

  sum_of_both :
      (id : ℕ) (ms : List MemberRow)
      → x == y ≡ false
      → tally (λ m. m.chat_id == id && (m.member_id == x || m.member_id == y)) ms
        ≡ tally (is_member id x) ms + tally (is_member id y) ms
  sum_of_both id [] e = refl
  sum_of_both id (m ∷ ms) e = ground (arith, e, sum_of_both id ms)

  pub both_in :
      (id : ℕ) (ms : List MemberRow)
      → x == y ≡ false
      → distinct_members ms ≡ true
      → has_both x y ms id ≡ true
      → (any (is_member id x) ms ≡ true) × (any (is_member id y) ms ≡ true)
  both_in id ms e d h =
      ground (arith, e, d, h, sum_of_both id ms, one_at_most id x ms, one_at_most id y ms)

module _ (test : ℕ → Bool) where
  at_or_passes :
      (i k : ℕ) (is : List ℕ) → test i ≡ true → all test is ≡ true → test (at_or i k is) ≡ true
  at_or_passes i zero is e h = e
  at_or_passes i (suc k) [] e h = e
  at_or_passes i (suc k) (j ∷ is) e h = at_or_passes j k is (ground (arith, h)) (ground (arith, h))

  keep_passes : (is : List ℕ) → all test (keep test is) ≡ true
  keep_passes [] = refl
  keep_passes (i ∷ is) = elim (Bool-cases (test i)) [
    | inl e ↦ simp e (keep_passes is)
    | inr e ↦ simp e (keep_passes is)
  ]

  passes_of :
      (k id : ℕ) (is : List ℕ) → all test is ≡ true → pick_from k is ≡ some id → test id ≡ true
  passes_of k id [] h e = absurd (cc)
  passes_of k id (i ∷ is) h e =
      let picked : at_or i k is ≡ id = same_some _ _ e in
      ap test (sym picked) ∙ at_or_passes i k is (ground (arith, h)) (ground (arith, h))
    where
      same_some : (x y : ℕ) → ◌≡◌ {A = Option ℕ} (some x) (some y) → x ≡ y
      same_some x y e = cc

  -- What is picked of those that pass, passes.
  pub picked_passes :
      (k id : ℕ) (is : List ℕ) → pick_from k (keep test is) ≡ some id → test id ≡ true
  picked_passes k id is e = passes_of k id (keep test is) (keep_passes is) e

  one_kept : (id : ℕ) (is : List ℕ) → is_one_of is id ≡ true → test id ≡ true → keep test is ≢ []
  one_kept id [] e h n = absurd (cc)
  one_kept id (i ∷ is) e h n = elim (Bool-cases (test i)) [
    | inl it ↦ ground (arith, n, it)
    | inr fails ↦ elim (Bool-cases (i == id)) [
      | inl it ↦
          let same : i ≡ id = ground (arith, it) in
          let out : test id ≡ false = ap test (sym same) ∙ fails in absurd (cc)
      | inr different ↦ one_kept id is (ground (arith, e, different)) h (ground (arith, n, fails))
    ]
  ]

  -- Something is picked, where one of them passes.
  pub some_picked :
      (k id : ℕ) (is : List ℕ)
      → is_one_of is id ≡ true
      → test id ≡ true
      → (j : ℕ) × (pick_from k (keep test is) ≡ some j)
  some_picked k id is e h = nonempty (keep test is) (one_kept id is e h)
    where
      nonempty : (js : List ℕ) → js ≢ [] → (j : ℕ) × (pick_from k js ≡ some j)
      nonempty [] out = absurd (out refl)
      nonempty (j ∷ js) out = (at_or j k js, refl)

module _ (x y : ℕ) where
  -- A chat of two members has rows.
  listed :
      (id : ℕ) (ms : List MemberRow)
      → is_one_of (map (λ (m : MemberRow). m.chat_id) ms) id ≡ false
      → tally (λ m. m.chat_id == id && (m.member_id == x || m.member_id == y)) ms ≡ 0
  listed id [] e = refl
  listed id (m ∷ ms) e = ground (arith, e, listed id ms)

  pub both_listed :
      (id : ℕ) (ms : List MemberRow)
      → has_both x y ms id ≡ true
      → is_one_of (map (λ (m : MemberRow). m.chat_id) ms) id ≡ true
  both_listed id ms h = elim (Bool-cases (is_one_of (map (λ (m : MemberRow). m.chat_id) ms) id)) [
    | inl e ↦ e
    | inr e ↦ absurd (ground (arith, h, listed id ms e))
  ]

-- The ids in order.
module _ (a b : ℕ) (other : a == b ≡ false) where
  pub ordered_swap : ordered_ids b a ≡ ordered_ids a b
  ordered_swap = ground (arith, other)

  pub ordered_differ : (ordered_ids a b).0 == (ordered_ids a b).1 ≡ false
  ordered_differ = ground (arith, other)

  pub ordered_any :
      (f : ℕ → Bool)
      → (f (ordered_ids a b).0 ≡ true) × (f (ordered_ids a b).1 ≡ true)
      → (f a ≡ true) × (f b ≡ true)
  ordered_any f h = ground (arith, other, h)

  pub any_ordered :
      (f : ℕ → Bool)
      → (f a ≡ true) × (f b ≡ true)
      → (f (ordered_ids a b).0 ≡ true) × (f (ordered_ids a b).1 ≡ true)
  any_ordered f h = ground (arith, other, h)

-- The order of the two users does not matter to the clause.
both_swap : (x y id : ℕ) (ms : List MemberRow) → has_both y x ms id ≡ has_both x y ms id
both_swap x y id ms = ap (λ n. n == 2) (tally_swap ms)
  where
    tally_swap :
        (ms : List MemberRow)
        → tally (λ m. m.chat_id == id && (m.member_id == y || m.member_id == x)) ms
          ≡ tally (λ m. m.chat_id == id && (m.member_id == x || m.member_id == y)) ms
    tally_swap [] = refl
    tally_swap (m ∷ ms) = ground (arith, tally_swap ms)

pub both_ordered :
    (a b id : ℕ) (ms : List MemberRow)
    → has_both (ordered_ids a b).0 (ordered_ids a b).1 ms id ≡ has_both a b ms id
both_ordered a b id ms = elim (Bool-cases (ltb b a)) [
  | inl e ↦ simp e (both_swap a b id ms)
  | inr e ↦ simp e refl
]
