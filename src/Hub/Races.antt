-- ===== src/Hub/Races.antt =====
-- Where the goroutines of the hub meet: what can panic, and what a reconnection does.
use slps_team.Prelude.{
  ℕ, String, ◌≡◌, refl, ap, subst, ◌∙◌, arith, true, false, [], ◌∷◌, Option, none, some,
  Option-cases, inl, inr,
}
use slps_team.Hub.{
  Client, Hub, new_hub, put, add_client, remove_client, look_up, select_send, write_message,
  end_writing, end_reading,
}
use slps_team.Hub.Steps.{
  Step, adds, looks_up, sends, writes, stops_writing, stops_reading, Steps, stay, first,
}
use slps_team.Hub.Safety.{IsSound, reachable-IsSound, touch-IsSound, remove_absent, remove_present}

remove_panicked : (u : ℕ) (h : Hub) → IsSound h → (remove_client u h).panicked ≡ h.panicked
remove_panicked u h s = elim (Option-cases (h.clients u)) [
  | inl absent ↦ ap (λ (x : Hub). x.panicked) (remove_absent u h absent)
  | inr (p, e) ↦
      ap (λ (x : Hub). x.panicked) (remove_present u h p e) ∙ ground (arith, s.listed u p e)
]

look_panicked : (u : ℕ) (m : String) (h : Hub) → (look_up u m h).panicked ≡ h.panicked
unfolding look_up
look_panicked u m h = ground arith

send_panicked :
    (p : ℕ) (m : String) (h : Hub)
    → h.panicked ≡ false
    → (select_send p m h).panicked ≡ true
    → (h.heap p).closed ≡ true
unfolding select_send
send_panicked p m h calm bad = ground arith

writing_panicked : (p : ℕ) (h : Hub) → IsSound h → (end_writing p h).panicked ≡ h.panicked
unfolding end_writing
writing_panicked p h s =
    remove_panicked _ _ (touch-IsSound p (record (h.heap p) { writing = false }) h refl refl refl s)

reading_panicked : (p : ℕ) (h : Hub) → IsSound h → (end_reading p h).panicked ≡ h.panicked
unfolding end_reading
reading_panicked p h s =
    remove_panicked _ _ (touch-IsSound p (record (h.heap p) { reading = false }) h refl refl refl s)

-- The step is a send that has found its client, whose channel has been closed since.
abbrev pub IsLostSend : {h h' : Hub} → Step h h' → Type 0
IsLostSend {h} (sends before after p message e) = (h.heap p).closed ≡ true
IsLostSend step = ⊥

panic_lost :
    (h h' : Hub) (step : Step h h')
    → IsSound h
    → h.panicked ≡ false
    → h'.panicked ≡ true
    → IsLostSend step
unfolding add_client write_message
panic_lost h _ (adds u) s calm bad = absurd (cc)
panic_lost h _ (looks_up u m) s calm bad = let same = look_panicked u m h in absurd (cc)
panic_lost h _ (sends before after p m e) s calm bad = send_panicked p m _ calm bad
panic_lost h _ (writes p m rest on e) s calm bad = absurd (cc)
panic_lost h _ (stops_writing p on) s calm bad = let same = writing_panicked p h s in absurd (cc)
panic_lost h _ (stops_reading p on) s calm bad = let same = reading_panicked p h s in absurd (cc)

-- In every order of the steps of the goroutines, from the empty hub: the first step that panics is a
-- send that has found its client, on a channel that has been closed since. No other step panics.
pub panic-IsLostSend :
    (h h' : Hub)
    → Steps new_hub h
    → (step : Step h h') → h.panicked ≡ false
    → h'.panicked ≡ true
    → IsLostSend step
panic-IsLostSend h h' before step calm bad =
    panic_lost h h' step (reachable-IsSound h before) calm bad

select_closed :
    (p : ℕ) (m : String) (h : Hub) → (h.heap p).closed ≡ true → (select_send p m h).panicked ≡ true
unfolding select_send
select_closed p m h closed = ground arith

-- The pump of `p` stops, and closes the client that its user has in the map.
module _ (k : Hub) (p q : ℕ) (e : k.clients (k.heap p).user_id ≡ some q)
    (open' : (k.heap q).closed ≡ false) where
  abbrev stopped : ℕ → Client
  stopped = put p (record (k.heap p) { writing = false }) k.heap

  abbrev ended : Hub
  ended = record k {
    clients = put (k.heap p).user_id none k.clients;
    heap = put q (record (stopped q) { closed = true; conn_open = false }) stopped;
  }

  stopped_open : (stopped q).closed ≡ false
  stopped_open = ground arith

  ends : end_writing p k ≡ ended
  unfolding end_writing
  ends = remove_present _ _ q e ∙ simp (stopped_open)

module _ (h : Hub) (u p : ℕ) (s : IsSound h) (e : h.clients u ≡ some p) where
  look_up_found : (m : String) → look_up u m h ≡ record h { sending = (p, m) ∷ h.sending }
  unfolding look_up
  look_up_found m =
      ap
        (λ (o : Option ℕ). elim o [ none ↦ h | some q ↦ record h { sending = (q, m) ∷ h.sending } ])
        e

  -- From every sound state, a client that is in the map, and whose write pump runs, can lose this
  -- race: a send finds it, the pump stops and closes the channel, and the send panics.
  pub send-panics :
      (message : String)
      → (h.heap p).writing ≡ true
      → (h' : Hub) × Steps h h' × (h'.panicked ≡ true)
  send-panics message on =
      let h1 : Hub = record h { sending = (p, message) ∷ h.sending } in
      let finds : look_up u message h ≡ h1 = look_up_found message in
      let (below, user, open') = s.listed u p e in
      let there : h1.clients (h1.heap p).user_id ≡ some p = rw user e in
      let stops = ends h1 p p there open' in
      (
        _,
        first (subst (Step h) finds (looks_up u message)) (
            first (stops_writing p on)
              (first (sends [] h.sending p message (ap (λ (x : Hub). x.sending) stops)) stay)),
        select_closed p message (record (end_writing p h1) { sending = h.sending })
            (ap (λ (x : Hub). (x.heap p).closed) stops ∙ ground arith),
      )

  -- From every sound state, when a user who is in the map connects again and the write pump of the
  -- old connection then stops, the user is out of the map, the channel of the new client is closed,
  -- and that of the old one is still open.
  pub reconnection-loses :
      let h' = end_writing p (add_client u h) in
      (h'.clients u ≡ none) × ((h'.heap h.made).closed ≡ true) × ((h'.heap p).closed ≡ false)
  unfolding add_client
  reconnection-loses =
      let added : Hub = add_client u h in
      let (below, user, open') = s.listed u p e in
      let same : (added.heap p).user_id ≡ u = ground arith in
      let stops = ends added p h.made (rw same (ground arith)) (ground arith) in
      (
        ap (λ (x : Hub). x.clients u) stops ∙ ground arith,
        ap (λ (x : Hub). (x.heap h.made).closed) stops ∙ ground arith,
        ap (λ (x : Hub). (x.heap p).closed) stops ∙ ground arith,
      )
