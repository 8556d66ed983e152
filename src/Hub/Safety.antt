-- ===== src/Hub/Safety.antt =====
-- What holds of the hub in every order of steps.
use slps_team.Prelude.{
  ℕ, String, ◌≡◌, ◌≤◌, ◌<◌, refl, ap, subst, sym, arith, false, List, [], ◌∷◌, ◌++◌, length,
  length-append, Option, none, some, Option-cases, inl, inr,
}
use slps_team.Hub.{
  Client, Hub, capacity, put, new_hub, add_client, remove_client, close_client, look_up,
  select_send, write_message, end_writing, end_reading,
}
use slps_team.Hub.Steps.{
  Step, adds, looks_up, sends, writes, stops_writing, stops_reading, Steps, stay, first,
}

-- A client that is in the map is there under its own user, and its channel is open; and no channel
-- holds more than its capacity.
pub record IsSound (h : Hub) : Type 0 where
  pub listed :
      (u p : ℕ)
      → h.clients u ≡ some p
      → (p < h.made) × ((h.heap p).user_id ≡ u) × ((h.heap p).closed ≡ false)
  pub bounded : (p : ℕ) → length (h.heap p).queue ≤ capacity

new_hub-IsSound : IsSound new_hub
new_hub-IsSound = record { listed = λ u p e. absurd (cc); bounded = λ p. omega arith }

add_client-IsSound : (u : ℕ) (h : Hub) → IsSound h → IsSound (add_client u h)
unfolding add_client
add_client-IsSound u h s = record {
  listed = λ v p e. ground (arith, s.listed v p);
  bounded = λ p. ground (arith, s.bounded p);
}

look_up-IsSound : (u : ℕ) (m : String) (h : Hub) → IsSound h → IsSound (look_up u m h)
unfolding look_up
look_up-IsSound u m h s = record {
  listed = λ v p e. ground (arith, s.listed v p);
  bounded = λ p. ground (arith, s.bounded p);
}

close_client-IsSound :
    (u p : ℕ) (h : Hub) → h.clients u ≡ some p → IsSound h → IsSound (close_client u p h)
close_client-IsSound u p h e s = record {
  listed = λ v q e'. ground (arith, s.listed v q, s.listed u p e);
  bounded = λ q. ground (arith, s.bounded q, s.bounded p);
}

module _ (u : ℕ) (h : Hub) where
  pub remove_absent : h.clients u ≡ none → remove_client u h ≡ h
  unfolding remove_client
  remove_absent e = ap (λ (o : Option ℕ). elim o [ none ↦ h | some p ↦ close_client u p h ]) e

  pub remove_present : (p : ℕ) → h.clients u ≡ some p → remove_client u h ≡ close_client u p h
  unfolding remove_client
  remove_present p e = ap (λ (o : Option ℕ). elim o [ none ↦ h | some q ↦ close_client u q h ]) e

  remove_client-IsSound : IsSound h → IsSound (remove_client u h)
  remove_client-IsSound s = elim (Option-cases (h.clients u)) [
    | inl absent ↦ subst IsSound (sym (remove_absent absent)) s
    | inr (p, e) ↦ subst IsSound (sym (remove_present p e)) (close_client-IsSound u p h e s)
  ]

select_send-IsSound : (p : ℕ) (m : String) (h : Hub) → IsSound h → IsSound (select_send p m h)
unfolding select_send
select_send-IsSound p m h s = record {
  listed = λ v q e. ground (arith, s.listed v q);
  bounded = λ q. ground (arith, s.bounded q, length-append (h.heap p).queue (m ∷ []));
}

write_message-IsSound :
    (p : ℕ) (m : String) (rest : List String) (h : Hub)
    → (h.heap p).queue ≡ m ∷ rest
    → IsSound h
    → IsSound (write_message p m rest h)
unfolding write_message
write_message-IsSound p m rest h e s = record {
  listed = λ v q e'. ground (arith, s.listed v q);
  bounded = λ q. ground (arith, s.bounded q, s.bounded p, e);
}

-- A change of a client that keeps its user, its channel and its messages.
pub touch-IsSound :
    (p : ℕ) (c : Client) (h : Hub)
    → c.user_id ≡ (h.heap p).user_id
    → c.closed ≡ (h.heap p).closed
    → c.queue ≡ (h.heap p).queue
    → IsSound h
    → IsSound (record h { heap = put p c h.heap })
touch-IsSound p c h a b d s = record {
  listed = λ v q e. ground (arith, s.listed v q);
  bounded = λ q. ground (arith, s.bounded q, s.bounded p, ap length d);
}

end_writing-IsSound : (p : ℕ) (h : Hub) → IsSound h → IsSound (end_writing p h)
unfolding end_writing
end_writing-IsSound p h s =
    remove_client-IsSound _ _
      (touch-IsSound p (record (h.heap p) { writing = false }) h refl refl refl s)

end_reading-IsSound : (p : ℕ) (h : Hub) → IsSound h → IsSound (end_reading p h)
unfolding end_reading
end_reading-IsSound p h s = touch-IsSound p _ _ refl refl refl (
    remove_client-IsSound _ _
      (touch-IsSound p (record (h.heap p) { reading = false }) h refl refl refl s))

Step-IsSound : (h h' : Hub) → Step h h' → IsSound h → IsSound h'
Step-IsSound h _ (adds u) s = add_client-IsSound u h s
Step-IsSound h _ (looks_up u m) s = look_up-IsSound u m h s
Step-IsSound h _ (sends before after p m e) s =
    select_send-IsSound p m (record h { sending = before ++ after })
      (record { listed = s.listed; bounded = s.bounded })
Step-IsSound h _ (writes p m rest on e) s = write_message-IsSound p m rest h e s
Step-IsSound h _ (stops_writing p on) s = end_writing-IsSound p h s
Step-IsSound h _ (stops_reading p on) s = end_reading-IsSound p h s

Steps-IsSound : (h h' : Hub) → Steps h h' → IsSound h → IsSound h'
Steps-IsSound h _ stay s = s
Steps-IsSound h h'' (first {h' = h'} one more) s =
    Steps-IsSound h' h'' more (Step-IsSound h h' one s)

-- In every order of the steps of the goroutines, from the empty hub: a client in the map is there
-- under its own user and has an open channel, and no channel holds more than 256 messages.
pub reachable-IsSound : (h : Hub) → Steps new_hub h → IsSound h
reachable-IsSound h steps = Steps-IsSound new_hub h steps new_hub-IsSound
