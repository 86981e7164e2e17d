-- ===== src/Qq/Gateway/Frames.antt =====
-- What qq/qq-gateway.service.ts sends on its sockets, and when.
use social_monitor.Prelude.{
  ℕ, ◌≡◌, refl, sym, ap, ◌∙◌, Text, text, nonempty, truthy, ◌==◌, eqb, Bool, true, ◌&&◌, ◌||◌, List,
  [], ◌∷◌, Option, none, some, arith, if◌then◌else◌, Bool-cases, inl, inr,
}
use social_monitor.Core.{ok, err, or_default}
use social_monitor.Net.{Members}
use social_monitor.Qq.Gateway.{
  Gateway, Payload, Opcode, hello, dispatch, reconnect, invalid_session, heartbeat_ack, other,
  opcode_of, Frame, identify_frame, heartbeat_frame, send, identify, clear_heartbeat,
  start_heartbeat, heartbeat, schedule_reconnect, close_on, close_and_reconnect, handle_close,
  handle_dispatch, handle_payload, handle_message, connect, connected, unmade, reconnect_now,
  on_module_destroy, take_seq, take_session, take_group, send_on,
}
use social_monitor.Qq.Gateway.Steps.{
  Event, settled, refused, ready_states, message, closed, reconnect_fires, heartbeat_fires,
  destroyed, act,
}
use social_monitor.Qq.Gateway.Scheduling.{scheduled, branches}

-- The frame that an event asks for: an `Identify` with the token and the group intents for a hello,
-- once there is a token; a `Heartbeat` with the last sequence number when the interval fires.
abbrev pub due : Event → Gateway → Option Frame
due (message i (some p)) g =
    if eqb p.op 10 && nonempty g.auth_token
    then some (identify_frame g.auth_token 33554432)
    else none
due heartbeat_fires g = some (heartbeat_frame g.last_seq)
due _ g = none

-- The frames with one more that is due, where a socket is in use and open.
abbrev pub posted : Option ℕ → (ℕ → Bool) → Option Frame → List (ℕ × Frame) → List (ℕ × Frame)
posted (some i) opened (some f) frames = if opened i then (i, f) ∷ frames else frames
posted _ opened _ frames = frames

posted-none :
    (w : Option ℕ) (opened : ℕ → Bool) (frames : List (ℕ × Frame))
    → posted w opened none frames ≡ frames
posted-none none opened frames = refl
posted-none (some i) opened frames = refl

send_on_lem :
    (w : Option ℕ) (f : Frame) (g : Gateway)
    → (send_on w f g).frames ≡ posted w g.opened (some f) g.frames
send_on_lem none f g = refl
send_on_lem (some i) f g = elim (Bool-cases (g.opened i)) [ inl e ↦ rw e refl | inr e ↦ rw e refl ]

abbrev Same : List (ℕ × Frame) → Gateway → Type 0
Same frames g = g.frames ≡ frames

identify_lem :
    (g : Gateway)
    → (identify g).frames
      ≡ posted g.ws g.opened
          (if nonempty g.auth_token then some (identify_frame g.auth_token 33554432) else none)
          g.frames
unfolding identify send
identify_lem g = elim (Bool-cases (nonempty g.auth_token)) [
  | inl e ↦ rw e (send_on_lem g.ws (identify_frame g.auth_token 33554432) g)
  | inr e ↦ rw e (sym (posted-none g.ws g.opened g.frames))
]

schedule_reconnect_same : (g : Gateway) → (schedule_reconnect g).frames ≡ g.frames
unfolding schedule_reconnect
schedule_reconnect_same g = branches (Same g.frames) _ g (scheduled g) refl refl

close_same : (w : Option ℕ) (g : Gateway) → (close_on w g).frames ≡ g.frames
close_same none g = refl
close_same (some i) g = refl

close_and_reconnect_same : (g : Gateway) → (close_and_reconnect g).frames ≡ g.frames
unfolding close_and_reconnect clear_heartbeat
close_and_reconnect_same g =
    schedule_reconnect_same (close_on g.ws (clear_heartbeat g))
    ∙ close_same g.ws (clear_heartbeat g)

session_same : (t : Option Text) (g : Gateway) → (take_session t g).frames ≡ g.frames
session_same t g = branches (Same g.frames) (truthy t) _ g refl refl

group_same : (t : Option Text) (g : Gateway) → (take_group t g).frames ≡ g.frames
group_same t g = branches (Same g.frames) (truthy t) _ g refl refl

dispatch_same :
    (type : Text) (d : Members) (g : Gateway) → (handle_dispatch type d g).frames ≡ g.frames
unfolding handle_dispatch
dispatch_same type d g =
    branches (Same g.frames) (type == text "READY" || type == text "RESUMED") _ _ (session_same _ g)
      (branches (Same g.frames) (type == text "GROUP_ADD_ROBOT") _ g (group_same _ g) refl)

seq_same : (t : Option ℕ) (g : Gateway) → (take_seq t g).frames ≡ g.frames
seq_same none g = refl
seq_same (some n) g = refl

handle_close_same : (g : Gateway) → (handle_close g).frames ≡ g.frames
unfolding handle_close clear_heartbeat
handle_close_same g = branches (Same g.frames) g.shutting_down _ _ refl (schedule_reconnect_same _)

abbrev due_of : Opcode → Gateway → Option Frame
due_of hello g = if nonempty g.auth_token then some (identify_frame g.auth_token 33554432) else none
due_of _ g = none

payload_lem :
    (o : Opcode) (p : Payload) (g : Gateway)
    → (handle_payload o p g).frames ≡ posted g.ws g.opened (due_of o g) g.frames
unfolding handle_payload start_heartbeat clear_heartbeat
payload_lem hello p g = identify_lem _
payload_lem dispatch p g =
    dispatch_same (or_default p.t []) p.d (take_seq p.s g)
    ∙ (seq_same p.s g ∙ sym (posted-none g.ws g.opened g.frames))
payload_lem reconnect p g = close_and_reconnect_same g ∙ sym (posted-none g.ws g.opened g.frames)
payload_lem invalid_session p g =
    close_and_reconnect_same (record g { session_id = none })
    ∙ sym (posted-none g.ws g.opened g.frames)
payload_lem heartbeat_ack p g = sym (posted-none g.ws g.opened g.frames)
payload_lem other p g = sym (posted-none g.ws g.opened g.frames)

hello_code :
    (i : ℕ) (p : Payload) (g : Gateway) → due_of (opcode_of p.op) g ≡ due (message i (some p)) g
hello_code i p g = ground arith

-- What each event sends, in every state: a hello from the gateway sends one `Identify` with the
-- token at hand and the group intents, if there is a token; the interval sends one `Heartbeat`
-- with the last sequence number; either goes to the socket in use, and only where that is open;
-- no other event sends a frame.
pub act-frames :
    (e : Event) (g : Gateway) → (act e g).frames ≡ posted g.ws g.opened (due e g) g.frames
unfolding connected unmade reconnect_now connect handle_message heartbeat send on_module_destroy
    clear_heartbeat
act-frames (settled (err x)) g =
    schedule_reconnect_same _ ∙ sym (posted-none g.ws g.opened g.frames)
act-frames (settled (ok (url, token))) g = sym (posted-none g.ws g.opened g.frames)
act-frames (refused token) g = sym (posted-none g.ws g.opened g.frames)
act-frames (ready_states o) g = sym (posted-none g.ws g.opened g.frames)
act-frames (message i none) g = sym (posted-none g.ws g.opened g.frames)
act-frames (message i (some p)) g =
    payload_lem (opcode_of p.op) p g ∙ ap (λ f. posted g.ws g.opened f g.frames) (hello_code i p g)
act-frames (closed i) g = handle_close_same g ∙ sym (posted-none g.ws g.opened g.frames)
act-frames reconnect_fires g = sym (posted-none g.ws g.opened g.frames)
act-frames heartbeat_fires g = send_on_lem g.ws (heartbeat_frame g.last_seq) g
act-frames destroyed g =
    close_same g.ws (record (clear_heartbeat g) { shutting_down = true; reconnect_timer = none })
    ∙ sym (posted-none g.ws g.opened g.frames)
