-- ===== src/Qq/Gateway.antt =====
-- qq/qq-gateway.service.ts: the WebSocket connection of the QQ bot. The sockets and the timers are
-- the runtime's; the state holds what the service has asked of them, and its handlers are functions
-- on the state. Logging and `unref` are left out.
pub mod Steps
pub mod Scheduling
pub mod Backoff
pub mod Safety
pub mod Frames
pub mod Closing
mod Tests
use social_monitor.Prelude.{
  ℕ, ◌+◌, ◌*◌, ◌^◌, min, Text, text, ◌++◌, ◌==◌, truthy, nonempty, or_null, Bool, true, false, ◌&&◌,
  ◌||◌, not, eqb, leb, List, [], ◌∷◌, Option, none, some, if◌then◌else◌,
}
use social_monitor.Core.{Result, ok, err, Action, ◌>>=◌, return, or_default}
use social_monitor.Net.{Network, Io, Members, member, as_text, as_number}
use social_monitor.Qq.Client.{QqClient, resolve_gateway_url, get_access_token}

abbrev pub reconnect_base_delay_ms : ℕ
reconnect_base_delay_ms = 1000

abbrev pub reconnect_max_delay_ms : ℕ
reconnect_max_delay_ms = 60000

abbrev pub default_heartbeat_ms : ℕ
default_heartbeat_ms = 45000

-- `QQ_INTENTS_GROUP`, `1 << 25`
abbrev pub qq_intents_group : ℕ
qq_intents_group = 33554432

-- The operation codes that the gateway handles; any other number is `other`.
pub data Opcode : Type 0 where
  dispatch reconnect invalid_session hello heartbeat_ack other : Opcode

abbrev pub opcode_of : ℕ → Opcode
opcode_of n =
    if eqb n 0
    then dispatch
    else if eqb n 7
    then reconnect
    else if eqb n 9
    then invalid_session
    else if eqb n 10
    then hello
    else if eqb n 11
    then heartbeat_ack
    else other

-- A payload from the gateway; a member that is absent or of another type is `none`, and a `d` that
-- is no object has no members.
pub record Payload : Type 0 where
  pub op : ℕ
  pub d : Members
  pub s : Option ℕ
  pub t : Option Text

-- A payload to the gateway: the token and the intents of an `Identify`, whose shard and properties
-- are constants, and the sequence number of a `Heartbeat`.
pub data Frame : Type 0 where
  identify_frame : (token : Text) (intents : ℕ) → Frame
  heartbeat_frame : (seq : Option ℕ) → Frame

-- A socket is its number in the order of their making. `opened` says of which sockets `readyState`
-- is `OPEN`, as the runtime tells the service; `created`, `frames` and `closes` are the calls of
-- `new WebSocket`, `send` and `close`, newest first; a timer is its delay in milliseconds.
-- `connecting` counts the calls of `connect` that await their answers.
pub record Gateway : Type 0 where
  pub ws : Option ℕ
  pub auth_token : Text
  pub heartbeat_timer : Option ℕ
  pub reconnect_timer : Option ℕ
  pub heartbeat_interval : ℕ
  pub session_id : Option Text
  pub last_seq : Option ℕ
  pub reconnect_attempts : ℕ
  pub shutting_down : Bool
  pub known_groups : List Text
  pub connecting : ℕ
  pub sockets : ℕ
  pub opened : ℕ → Bool
  pub created : List Text
  pub frames : List (ℕ × Frame)
  pub closes : List ℕ

unfoldable pub start : Gateway
start = record {
  ws = none;
  auth_token = [];
  heartbeat_timer = none;
  reconnect_timer = none;
  heartbeat_interval = default_heartbeat_ms;
  session_id = none;
  last_seq = none;
  reconnect_attempts = 0;
  shutting_down = false;
  known_groups = [];
  connecting = 0;
  sockets = 0;
  opened = λ i. false;
  created = [];
  frames = [];
  closes = [];
}

abbrev pub is_open : Option ℕ → (ℕ → Bool) → Bool
is_open none opened = false
is_open (some i) opened = opened i

unfoldable pub is_online : Gateway → Bool
is_online g = is_open g.ws g.opened

abbrev pub send_on : Option ℕ → Frame → Gateway → Gateway
send_on none f g = g
send_on (some i) f g = if g.opened i then record g { frames = (i, f) ∷ g.frames } else g

-- `send`
unfoldable pub send : Frame → Gateway → Gateway
send f g = send_on g.ws f g

unfoldable pub identify : Gateway → Gateway
identify g =
    let sent = send (identify_frame g.auth_token qq_intents_group) g in
    if not (nonempty g.auth_token) then g else sent

unfoldable pub clear_heartbeat : Gateway → Gateway
clear_heartbeat g = record g { heartbeat_timer = none }

unfoldable pub start_heartbeat : Gateway → Gateway
unfolding clear_heartbeat
start_heartbeat g = record (clear_heartbeat g) { heartbeat_timer = some g.heartbeat_interval }

-- The interval's callback.
unfoldable pub heartbeat : Gateway → Gateway
heartbeat g = send (heartbeat_frame g.last_seq) g

unfoldable pub delay : ℕ → ℕ
delay attempts = min (reconnect_base_delay_ms * 2 ^ attempts) reconnect_max_delay_ms

abbrev pub is_set : Option ℕ → Bool
is_set none = false
is_set (some t) = true

unfoldable pub schedule_reconnect : Gateway → Gateway
schedule_reconnect g = if is_set g.reconnect_timer || g.shutting_down then g else record g {
  reconnect_attempts = g.reconnect_attempts + 1;
  reconnect_timer = some (delay g.reconnect_attempts);
}

-- `if (this.ws) { try { this.ws.close(); } catch {} this.ws = null; }`
abbrev pub close_on : Option ℕ → Gateway → Gateway
close_on none g = g
close_on (some i) g = record g { ws = none; closes = i ∷ g.closes }

unfoldable pub close_and_reconnect : Gateway → Gateway
close_and_reconnect g = schedule_reconnect (close_on g.ws (clear_heartbeat g))

-- `onclose` of any socket that the service has made.
unfoldable pub handle_close : Gateway → Gateway
handle_close g =
    let closed = record (clear_heartbeat g) { ws = none } in
    let scheduled = schedule_reconnect closed in if g.shutting_down then closed else scheduled

abbrev contains : Text → List Text → Bool
contains x [] = false
contains x (y ∷ ys) = x == y || contains x ys

-- `Set.add`
abbrev pub add_group : Text → List Text → List Text
add_group x l = if contains x l then l else x ∷ l

abbrev pub take_session : Option Text → Gateway → Gateway
take_session s g = if truthy s then record g { session_id = s } else g

abbrev pub take_group : Option Text → Gateway → Gateway
take_group s g =
    if truthy s then record g { known_groups = add_group (or_null s []) g.known_groups } else g

unfoldable pub handle_dispatch : Text → Members → Gateway → Gateway
handle_dispatch type d g =
    let session = take_session (as_text (member (text "session_id") d)) g in
    let group = take_group (as_text (member (text "group_openid") d)) g in
    if type == text "READY" || type == text "RESUMED"
    then record session { reconnect_attempts = 0 }
    else if type == text "GROUP_ADD_ROBOT"
    then group
    else g

-- `Number(data?.heartbeat_interval) || DEFAULT_HEARTBEAT_MS`
abbrev pub interval_of : Members → ℕ
interval_of d =
    let n = or_default (as_number (member (text "heartbeat_interval") d)) 0 in
    if eqb n 0 then default_heartbeat_ms else n

abbrev pub take_seq : Option ℕ → Gateway → Gateway
take_seq none g = g
take_seq (some n) g = record g { last_seq = some n }

unfoldable pub handle_payload : Opcode → Payload → Gateway → Gateway
handle_payload hello p g =
    identify (start_heartbeat (record g { heartbeat_interval = interval_of p.d }))
handle_payload dispatch p g = handle_dispatch (or_default p.t []) p.d (take_seq p.s g)
handle_payload heartbeat_ack p g = g
handle_payload reconnect p g = close_and_reconnect g
handle_payload invalid_session p g = close_and_reconnect (record g { session_id = none })
handle_payload other p g = g

-- `handleMessage`; text that is no JSON is `none`.
unfoldable pub handle_message : Option Payload → Gateway → Gateway
handle_message none g = g
handle_message (some p) g = handle_payload (opcode_of p.op) p g

-- The part of `connect` before its answers are there, and what it awaits.
unfoldable pub prepare : {N : Type 0} → Network N → QqClient → Action (Io N) (Text × Text)
prepare w client = do
  url ← resolve_gateway_url w client
  token ← get_access_token w client
  return (url, token)

unfoldable pub connect : Gateway → Gateway
connect g = record g { connecting = g.connecting + 1 }

-- The rest of `connect`, with the address and the token or an exception.
unfoldable pub connected : Result (Text × Text) → Gateway → Gateway
connected (err e) g = schedule_reconnect g
connected (ok (url, token)) g = record g {
  auth_token = text "QQBot " ++ token;
  ws = some g.sockets;
  sockets = g.sockets + 1;
  created = url ∷ g.created;
}

-- `new WebSocket(url)` throws: the token is kept, nothing is scheduled, and the promise that `connect`
-- gave, which nobody awaits, is rejected.
unfoldable pub unmade : (token : Text) → Gateway → Gateway
unmade token g = record g { auth_token = text "QQBot " ++ token }

-- The callback of the reconnect timer.
unfoldable pub reconnect_now : Gateway → Gateway
reconnect_now g = connect (record g { reconnect_timer = none })

unfoldable pub on_module_init : Bool → Gateway → Gateway
on_module_init configured g = let started = connect g in if not configured then g else started

unfoldable pub on_module_destroy : Gateway → Gateway
unfolding clear_heartbeat
on_module_destroy g =
    close_on g.ws (record (clear_heartbeat g) { shutting_down = true; reconnect_timer = none })
