-- ===== src/Qq/Gateway/Tests.antt =====
-- A run of the gateway, and its states.
use social_monitor.Prelude.{
  ◌≡◌, refl, ◌<◌, ◌≤◌, ◌+◌, ◌*◌, ◌^◌, min, text, true, false, [], ◌∷◌, none, some, arith,
}
use social_monitor.Core.{error, ok}
use social_monitor.Net.{num}
use social_monitor.Qq.Gateway.{
  Gateway, start, on_module_init, on_module_destroy, handle_payload, connect, connected, delay,
  reconnect, invalid_session,
}
use social_monitor.Qq.Gateway.Steps.{
  Event, settled, ready_states, message, Enabled, act, Later, now, step, Reachable,
}
use social_monitor.Qq.Gateway.Backoff.{delay_bounds, unprepared, dropped, failures, failures_lem}
use social_monitor.Qq.Gateway.Safety.{Timed, Reachable-Timed}
use social_monitor.Qq.Gateway.Frames.{due, posted, act-frames}
use social_monitor.Qq.Gateway.Closing.{destroyed_lem, late_connect, demand, reconnect_demand}
use social_monitor.Core.{Exception}

abbrev begun : Gateway
begun = on_module_init true start

-- The address and the token come, the socket opens, and the gateway says hello.
abbrev answers : Event
answers = settled (ok (text "wss://q", text "tok"))

abbrev hello_message : Event
hello_message =
    message 0 (
      some
        (record { op = 10; d = (text "heartbeat_interval", num 30000) ∷ []; s = none; t = none }))

abbrev linked : Gateway
linked = act answers begun

abbrev ready : Gateway
ready = act (ready_states (λ i. true)) linked

abbrev greeted : Gateway
greeted = act hello_message ready

answers-Enabled : Enabled answers begun
unfolding on_module_init connect start
answers-Enabled = omega arith

hello-Enabled : Enabled hello_message ready
unfolding on_module_init connect connected start
hello-Enabled = omega arith

greeted-Reachable : Reachable true greeted
greeted-Reachable =
    step (step (step now answers answers-Enabled refl) (ready_states (λ i. true)) tt refl)
      hello_message hello-Enabled refl

Reachable-Timed_example : Timed greeted
Reachable-Timed_example = Reachable-Timed true greeted greeted-Reachable

act-frames_example :
    greeted.frames ≡ posted (some 0) (λ i. true) (due hello_message ready) ready.frames
unfolding on_module_init connect connected start
act-frames_example = act-frames hello_message ready

-- The state of an open connection.
abbrev online : Gateway
online = record {
  ws = some 0;
  auth_token = text "QQBot tok";
  heartbeat_timer = some 30000;
  reconnect_timer = none;
  heartbeat_interval = 30000;
  session_id = some (text "s1");
  last_seq = some 4;
  reconnect_attempts = 0;
  shutting_down = false;
  known_groups = [];
  connecting = 0;
  sockets = 1;
  opened = λ i. true;
  created = text "wss://q" ∷ [];
  frames = [];
  closes = [];
}

abbrev offline_error : Exception
offline_error = error (text "offline")

delay_bounds_run :
    (1000 ≤ delay 3) × (delay 3 ≤ 60000) × (delay 3 ≤ delay 4) × (delay (6 + 3) ≡ 60000)
delay_bounds_run = delay_bounds 3

-- The token does not come; the socket closes; the token does not come again.
failures_lem_example :
    let h =
      failures
        (unprepared offline_error)
        (unprepared offline_error ∷ dropped (text "wss://q") (text "tok") ∷ [])
        online in
    (h.reconnect_timer ≡ some (min (1000 * 2 ^ (0 + 2)) 60000))
    × (h.reconnect_attempts ≡ 0 + (2 + 1))
    × (h.shutting_down ≡ false)
failures_lem_example =
    failures_lem (unprepared offline_error)
      (unprepared offline_error ∷ dropped (text "wss://q") (text "tok") ∷ []) online refl refl

destroyed_lem_run :
    ((on_module_destroy online).ws ≡ none)
    × ((on_module_destroy online).closes ≡ 0 ∷ [])
    × ((on_module_destroy online).heartbeat_timer ≡ none)
    × ((on_module_destroy online).reconnect_timer ≡ none)
    × ((on_module_destroy online).shutting_down ≡ true)
destroyed_lem_run = destroyed_lem online 0 refl

awaiting : 0 < (record online { connecting = 1 }).connecting
awaiting = omega arith

late_connect_example :
    let ended = on_module_destroy (record online { connecting = 1 }) in
    (h : Gateway) × Later ended h
    × (h.ws ≡ some ended.sockets)
    × (h.shutting_down ≡ true)
    × (h.closes ≡ ended.closes)
late_connect_example =
    late_connect (record online { connecting = 1 }) (text "wss://q") (text "tok") awaiting

demand_reconnects_run :
    (((handle_payload reconnect demand online).ws ≡ none)
      × ((handle_payload reconnect demand online).closes ≡ 0 ∷ [])
      × ((handle_payload reconnect demand online).session_id ≡ some (text "s1"))
      × ((handle_payload reconnect demand online).reconnect_timer ≡ some (delay 0)))
    × (((handle_payload invalid_session demand online).ws ≡ none)
        × ((handle_payload invalid_session demand online).closes ≡ 0 ∷ [])
        × ((handle_payload invalid_session demand online).session_id ≡ none)
        × ((handle_payload invalid_session demand online).reconnect_timer ≡ some (delay 0)))
demand_reconnects_run = reconnect_demand online demand 0 refl refl refl
