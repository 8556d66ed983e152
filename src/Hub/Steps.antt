-- ===== src/Hub/Steps.antt =====
-- What the goroutines of the hub can do, one step at a time, in any order.
use slps_team.Prelude.{ℕ, String, ◌≡◌, true, List, ◌∷◌, ◌++◌}
use slps_team.Hub.{Hub, add_client, look_up, select_send, write_message, end_writing, end_reading}

pub data Step : Hub → Hub → Type 0 where
  adds : {h : Hub} (user_id : ℕ) → Step h (add_client user_id h)
  looks_up : {h : Hub} (user_id : ℕ) (message : String) → Step h (look_up user_id message h)
  sends :
      {h : Hub} (before after : List (ℕ × String)) (p : ℕ) (message : String)
      → h.sending ≡ before ++ (p, message) ∷ after
      → Step h (select_send p message (record h { sending = before ++ after }))
  writes :
      {h : Hub} (p : ℕ) (message : String) (rest : List String)
      → (h.heap p).writing ≡ true
      → (h.heap p).queue ≡ message ∷ rest
      → Step h (write_message p message rest h)
  stops_writing : {h : Hub} (p : ℕ) → (h.heap p).writing ≡ true → Step h (end_writing p h)
  stops_reading : {h : Hub} (p : ℕ) → (h.heap p).reading ≡ true → Step h (end_reading p h)

pub data Steps : Hub → Hub → Type 0 where
  stay : {h : Hub} → Steps h h
  first : {h h' h'' : Hub} → Step h h' → Steps h' h'' → Steps h h''
