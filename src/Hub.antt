-- ===== src/Hub.antt =====
-- The WebSocket hub of internal/service/WSClient.go: the map of clients, their buffered channels,
-- and the goroutines that share them. A pointer to a client is its number on the heap. Deadlines,
-- tickers and logging are left out: a tick is a ping that fails or one that changes nothing.
pub mod Steps
pub mod Safety
pub mod Races
mod Tests
use slps_team.Prelude.{
  ℕ, suc, String, ltb, ◌==◌, Bool, true, false, List, [], ◌∷◌, ◌++◌, length, Option, none, some,
  if◌then◌else◌,
}

-- `Client`, with what its connection has sent, and which of its two pumps still run.
pub record Client : Type 0 where
  pub user_id : ℕ
  pub queue : List String
  pub closed : Bool
  pub conn_open : Bool
  pub written : List String
  pub writing : Bool
  pub reading : Bool

-- `Hub`, the heap, and the calls of `SendToUser` that have found their client and not sent yet. A
-- panic of one goroutine ends the program.
pub record Hub : Type 0 where
  pub clients : ℕ → Option ℕ
  pub heap : ℕ → Client
  pub made : ℕ
  pub sending : List (ℕ × String)
  pub panicked : Bool

abbrev pub capacity : ℕ
capacity = 256

abbrev pub put {ℓ} : {A : Type ℓ} → ℕ → A → (ℕ → A) → ℕ → A
put k a f n = if n == k then a else f n

abbrev pub new_client : ℕ → Client
new_client user_id = record {
  user_id = user_id;
  queue = [];
  closed = false;
  conn_open = true;
  written = [];
  writing = true;
  reading = true;
}

abbrev pub new_hub : Hub
new_hub = record {
  clients = λ _. none;
  heap = λ _. record (new_client 0) { writing = false; reading = false; conn_open = false };
  made = 0;
  sending = [];
  panicked = false;
}

-- `h.clients[userID] = client`, whoever was there.
unfoldable pub add_client : ℕ → Hub → Hub
add_client user_id h = record h {
  clients = put user_id (some h.made) h.clients;
  heap = put h.made (new_client user_id) h.heap;
  made = suc h.made;
}

-- `close(client.send)` panics on a closed channel.
abbrev pub close_client : ℕ → ℕ → Hub → Hub
close_client user_id p h = if (h.heap p).closed then record h { panicked = true } else record h {
  clients = put user_id none h.clients;
  heap = put p (record (h.heap p) { closed = true; conn_open = false }) h.heap;
}

unfoldable pub remove_client : ℕ → Hub → Hub
remove_client user_id h = elim (h.clients user_id) [ none ↦ h | some p ↦ close_client user_id p h ]

-- `SendToUser` up to its `RUnlock`.
unfoldable pub look_up : ℕ → String → Hub → Hub
look_up user_id message h = elim (h.clients user_id) [
  | none ↦ h
  | some p ↦ record h { sending = (p, message) ∷ h.sending }
]

-- The `select` of `SendToUser`: a send on a closed channel panics, and on a full one is dropped.
unfoldable pub select_send : ℕ → String → Hub → Hub
select_send p message h =
    let c = h.heap p in
    if c.closed
    then record h { panicked = true }
    else if ltb (length c.queue) capacity
    then record h { heap = put p (record c { queue = c.queue ++ message ∷ [] }) h.heap }
    else h

-- `writePump` takes a message from the channel and writes it.
unfoldable pub write_message : ℕ → String → List String → Hub → Hub
write_message p message rest h =
    let c = h.heap p in
    record h {
      heap = put p (record c { queue = rest; written = c.written ++ message ∷ [] }) h.heap;
    }

-- `writePump` returns, on a closed channel or a failed write: its deferred calls.
unfoldable pub end_writing : ℕ → Hub → Hub
end_writing p h =
    let c = h.heap p in
    remove_client c.user_id (record h { heap = put p (record c { writing = false }) h.heap })

-- `readPump` returns: its deferred calls.
unfoldable pub end_reading : ℕ → Hub → Hub
end_reading p h =
    let c = h.heap p in
    let h' =
      remove_client c.user_id (record h { heap = put p (record c { reading = false }) h.heap }) in
    record h' { heap = put p (record (h'.heap p) { conn_open = false }) h'.heap }
