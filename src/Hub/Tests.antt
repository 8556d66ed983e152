-- ===== src/Hub/Tests.antt =====
-- Each theorem on the hub at an input that meets its hypotheses.
use slps_team.Prelude.{[], ◌∷◌, ◌≡◌, refl, true, false, none, some}
use slps_team.Hub.{Hub, new_hub, add_client, look_up, end_writing, remove_client, select_send}
use slps_team.Hub.Steps.{Step, adds, looks_up, stops_writing, sends, Steps, stay, first}
use slps_team.Hub.Safety.{IsSound, reachable-IsSound}
use slps_team.Hub.Races.{IsLostSend, panic-IsLostSend, send-panics, reconnection-loses}

-- User 7 is connected.
abbrev one_client : Hub
one_client = add_client 7 new_hub

one_client_reached : Steps new_hub one_client
one_client_reached = first (adds 7) stay

reachable-IsSound_example : IsSound one_client
reachable-IsSound_example = reachable-IsSound one_client one_client_reached

one_client-IsSound : IsSound one_client
one_client-IsSound = reachable-IsSound one_client one_client_reached

one_client_listed : one_client.clients 7 ≡ some 0
unfolding add_client
one_client_listed = refl

one_client_writes : (one_client.heap 0).writing ≡ true
unfolding add_client
one_client_writes = refl

send-panics_example : (h' : Hub) × Steps one_client h' × (h'.panicked ≡ true)
send-panics_example =
    send-panics one_client 7 0 one_client-IsSound one_client_listed "hello" one_client_writes

reconnection-loses_example :
    let h' = end_writing 0 (add_client 7 one_client) in
    (h'.clients 7 ≡ none) × ((h'.heap one_client.made).closed ≡ true) × ((h'.heap 0).closed ≡ false)
reconnection-loses_example = reconnection-loses one_client 7 0 one_client-IsSound one_client_listed

-- A message has found the client, and the pump stops.
abbrev greeted : Hub
greeted = look_up 7 "hello" one_client

greeted_writes : (greeted.heap 0).writing ≡ true
unfolding look_up add_client
greeted_writes = refl

abbrev stopped_pump : Hub
stopped_pump = end_writing 0 greeted

found_message : stopped_pump.sending ≡ (0, "hello") ∷ []
unfolding end_writing remove_client look_up add_client
found_message = refl

abbrev crashed : Hub
crashed = select_send 0 "hello" (record stopped_pump { sending = [] })

crashes : (stopped_pump.panicked ≡ false) × (crashed.panicked ≡ true)
unfolding end_writing remove_client look_up add_client select_send
crashes = (refl, refl)

stopped_pump_reached : Steps new_hub stopped_pump
stopped_pump_reached =
    first (adds 7) (first (looks_up 7 "hello") (first (stops_writing 0 greeted_writes) stay))

abbrev lost_send : Step stopped_pump crashed
lost_send = sends [] [] 0 "hello" found_message

panic-IsLostSend_example : IsLostSend lost_send
panic-IsLostSend_example =
    panic-IsLostSend stopped_pump crashed stopped_pump_reached lost_send crashes.0 crashes.1
