-- ===== src/Qq/Gateway/Safety.antt =====
-- What holds of the gateway of qq/qq-gateway.service.ts in every state of its life.
use social_monitor.Prelude.{
  ℕ, ◌≤◌, ◌≡◌, refl, sym, subst, ◌∙◌, Text, text, nonempty, truthy, ◌==◌, Bool, true, false, not,
  ◌||◌, [], Option, none, some, Bool-cases, inl, inr,
}
use social_monitor.Core.{ok, err, or_default}
use social_monitor.Net.{Members}
use social_monitor.Qq.Gateway.{
  Gateway, Payload, Opcode, hello, dispatch, reconnect, invalid_session, heartbeat_ack, other,
  opcode_of, Frame, start, send, identify, clear_heartbeat, start_heartbeat, heartbeat,
  schedule_reconnect, close_on, close_and_reconnect, handle_close, handle_dispatch, handle_payload,
  handle_message, connect, connected, unmade, reconnect_now, on_module_init, on_module_destroy,
  take_seq, take_session, take_group, send_on,
}
use social_monitor.Qq.Gateway.Steps.{
  Event, settled, refused, ready_states, message, closed, reconnect_fires, heartbeat_fires,
  destroyed, Enabled, act, Later-invariant, Reachable,
}
use social_monitor.Qq.Gateway.Scheduling.{
  is_busy, scheduled, schedule_busy, schedule_idle, idle-running, branches,
}
use social_monitor.Qq.Gateway.Backoff.{delay_bounds}

abbrev pub InBounds : Option ℕ → Type 0
InBounds none = Unit {0}
InBounds (some t) = (1000 ≤ t) × (t ≤ 60000)

-- The reconnect timer: never set while the module shuts down, and its delay is in bounds.
pub record Timed (g : Gateway) : Type 0 where
  pub quiet : g.shutting_down ≡ true → g.reconnect_timer ≡ none
  pub bounded : InBounds g.reconnect_timer

-- Nothing that the timer's rules read has changed.
abbrev Untouched : Gateway → Gateway → Type 0
Untouched g h = (h.shutting_down ≡ g.shutting_down) × (h.reconnect_timer ≡ g.reconnect_timer)

Untouched-Timed : (g h : Gateway) → Untouched g h → Timed g → Timed h
Untouched-Timed g h (e, e') t = record {
  quiet = λ down. e' ∙ t.quiet (sym e ∙ down);
  bounded = subst InBounds (sym e') t.bounded;
}

scheduled-Timed : (g : Gateway) → g.shutting_down ≡ false → Timed (scheduled g)
scheduled-Timed g running = record {
  quiet = λ down. cc;
  bounded = let (low, high, _, _) = delay_bounds g.reconnect_attempts in (low, high);
}

schedule_reconnect-Timed : (g : Gateway) → Timed g → Timed (schedule_reconnect g)
schedule_reconnect-Timed g t = elim (Bool-cases (is_busy g)) [
  | inl busy ↦ subst Timed (sym (schedule_busy g busy)) t
  | inr idle ↦ subst Timed (sym (schedule_idle g idle)) (scheduled-Timed g (idle-running g idle))
]

send_on-Untouched : (w : Option ℕ) (f : Frame) (g : Gateway) → Untouched g (send_on w f g)
send_on-Untouched none f g = (refl, refl)
send_on-Untouched (some i) f g = branches (Untouched g) (g.opened i) _ g (refl, refl) (refl, refl)

send-Untouched : (f : Frame) (g : Gateway) → Untouched g (send f g)
unfolding send
send-Untouched f g = send_on-Untouched g.ws f g

identify-Untouched : (g : Gateway) → Untouched g (identify g)
unfolding identify
identify-Untouched g =
    branches (Untouched g) (not (nonempty g.auth_token)) g _ (refl, refl) (send-Untouched _ g)

hello-Untouched :
    (n : ℕ) (g : Gateway)
    → Untouched g (identify (start_heartbeat (record g { heartbeat_interval = n })))
unfolding start_heartbeat clear_heartbeat
hello-Untouched n g = identify-Untouched (start_heartbeat (record g { heartbeat_interval = n }))

close-Untouched : (s : Option ℕ) (g : Gateway) → Untouched g (close_on s g)
close-Untouched none g = (refl, refl)
close-Untouched (some i) g = (refl, refl)

session-Untouched : (s : Option Text) (g : Gateway) → Untouched g (take_session s g)
session-Untouched s g = branches (Untouched g) (truthy s) _ g (refl, refl) (refl, refl)

group-Untouched : (s : Option Text) (g : Gateway) → Untouched g (take_group s g)
group-Untouched s g = branches (Untouched g) (truthy s) _ g (refl, refl) (refl, refl)

dispatch-Untouched :
    (type : Text) (d : Members) (g : Gateway) → Untouched g (handle_dispatch type d g)
unfolding handle_dispatch
dispatch-Untouched type d g =
    branches (Untouched g) (type == text "READY" || type == text "RESUMED") _ _
      (session-Untouched _ g)
      (branches (Untouched g) (type == text "GROUP_ADD_ROBOT") _ g (group-Untouched _ g)
        (refl, refl))

seq-Untouched : (s : Option ℕ) (g : Gateway) → Untouched g (take_seq s g)
seq-Untouched none g = (refl, refl)
seq-Untouched (some n) g = (refl, refl)

close_and_reconnect-Timed : (g : Gateway) → Timed g → Timed (close_and_reconnect g)
unfolding close_and_reconnect clear_heartbeat
close_and_reconnect-Timed g t =
    schedule_reconnect-Timed _ (Untouched-Timed g _ (close-Untouched g.ws (clear_heartbeat g)) t)

message-Timed : (o : Opcode) (p : Payload) (g : Gateway) → Timed g → Timed (handle_payload o p g)
unfolding handle_payload
message-Timed hello p g t = Untouched-Timed g _ (hello-Untouched _ g) t
message-Timed dispatch p g t =
    Untouched-Timed (take_seq p.s g) _ (dispatch-Untouched (or_default p.t []) p.d (take_seq p.s g))
      (Untouched-Timed g _ (seq-Untouched p.s g) t)
message-Timed reconnect p g t = close_and_reconnect-Timed g t
message-Timed invalid_session p g t =
    close_and_reconnect-Timed (record g { session_id = none }) (Untouched-Timed g _ (refl, refl) t)
message-Timed heartbeat_ack p g t = t
message-Timed other p g t = t

handle_close-Timed : (g : Gateway) → Timed g → Timed (handle_close g)
unfolding handle_close clear_heartbeat
handle_close-Timed g t =
    let shut = Untouched-Timed g (record (clear_heartbeat g) { ws = none }) (refl, refl) t in
    branches Timed g.shutting_down _ _ shut (schedule_reconnect-Timed _ shut)

destroy-Timed : (g : Gateway) → Timed (on_module_destroy g)
unfolding on_module_destroy clear_heartbeat
destroy-Timed g =
    Untouched-Timed (record (clear_heartbeat g) { shutting_down = true; reconnect_timer = none }) _
      (close-Untouched g.ws _) (record { quiet = λ _. refl; bounded = tt })

act-Timed : (e : Event) (g : Gateway) → Enabled e g → Timed g → Timed (act e g)
unfolding connected unmade reconnect_now connect handle_message heartbeat
act-Timed (settled (err x)) g e t = schedule_reconnect-Timed _ (Untouched-Timed g _ (refl, refl) t)
act-Timed (settled (ok (url, token))) g e t = Untouched-Timed g _ (refl, refl) t
act-Timed (refused token) g e t = Untouched-Timed g _ (refl, refl) t
act-Timed (ready_states o) g e t = Untouched-Timed g _ (refl, refl) t
act-Timed (message i none) g e t = t
act-Timed (message i (some p)) g e t = message-Timed (opcode_of p.op) p g t
act-Timed (closed i) g e t = handle_close-Timed g t
act-Timed reconnect_fires g e t = record { quiet = λ _. refl; bounded = tt }
act-Timed heartbeat_fires g e t = Untouched-Timed g _ (send-Untouched _ g) t
act-Timed destroyed g e t = destroy-Timed g

init-Timed : (configured : Bool) → Timed (on_module_init configured start)
unfolding on_module_init connect start
init-Timed true = record { quiet = λ _. refl; bounded = tt }
init-Timed false = record { quiet = λ _. refl; bounded = tt }

-- In every state that the module reaches, whatever the runtime and the peer do: once it shuts down
-- no reconnect is pending, and a pending reconnect waits at least 1000 ms and at most 60000 ms.
pub Reachable-Timed : (configured : Bool) (g : Gateway) → Reachable configured g → Timed g
Reachable-Timed configured g r =
    Later-invariant Timed act-Timed (on_module_init configured start) g (init-Timed configured) r
