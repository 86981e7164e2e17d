-- ===== src/Qq/Gateway/Steps.antt =====
-- The gateway of qq/qq-gateway.service.ts in time: what the runtime may call, when, and the states
-- that come of it.
use social_monitor.Prelude.{ℕ, ◌-◌, ◌≡◌, subst, ◌<◌, Text, Bool, Option, some}
use social_monitor.Core.{Result}
use social_monitor.Qq.Gateway.{
  Gateway, Payload, start, on_module_init, on_module_destroy, connected, unmade, handle_message,
  handle_close, reconnect_now, heartbeat,
}

-- The answers that a call of `connect` awaits, and those with which no socket can be made; `readyState` of the sockets; a message, and the
-- close, of a socket; the two timers; the end of the module.
pub data Event : Type 0 where
  settled : Result (Text × Text) → Event
  refused : (token : Text) → Event
  ready_states : (ℕ → Bool) → Event
  message : (socket : ℕ) → Option Payload → Event
  closed : (socket : ℕ) → Event
  reconnect_fires : Event
  heartbeat_fires : Event
  destroyed : Event

-- The timers fire only where they are set, a call settles only where one awaits, and only sockets
-- that were made send messages or close; a socket that the service has let go of still may.
abbrev pub Enabled : Event → Gateway → Type 0
Enabled (settled r) g = 0 < g.connecting
Enabled (refused token) g = 0 < g.connecting
Enabled (ready_states o) g = Unit {0}
Enabled (message i p) g = i < g.sockets
Enabled (closed i) g = i < g.sockets
Enabled reconnect_fires g = (t : ℕ) × (g.reconnect_timer ≡ some t)
Enabled heartbeat_fires g = (t : ℕ) × (g.heartbeat_timer ≡ some t)
Enabled destroyed g = Unit {0}

abbrev pub act : Event → Gateway → Gateway
act (settled r) g = connected r (record g { connecting = g.connecting - 1 })
act (refused token) g = unmade token (record g { connecting = g.connecting - 1 })
act (ready_states o) g = record g { opened = o }
act (message i p) g = handle_message p g
act (closed i) g = handle_close g
act reconnect_fires g = reconnect_now g
act heartbeat_fires g = heartbeat g
act destroyed g = on_module_destroy g

-- The states from `g` on.
pub data Later (g : Gateway) : Gateway → Type 0 where
  now : Later g g
  step : {u v : Gateway} → Later g u → (e : Event) → Enabled e u → act e u ≡ v → Later g v

-- The states of a run of the module.
abbrev pub Reachable : Bool → Gateway → Type 0
Reachable configured g = Later (on_module_init configured start) g

-- What holds of a state, and is kept by every event, holds of all later states.
pub Later-invariant :
    (P : Gateway → Type 0)
    → ((e : Event) (u : Gateway) → Enabled e u → P u → P (act e u))
    → (g h : Gateway) → P g
    → Later g h
    → P h
Later-invariant P keep g h p now = p
Later-invariant P keep g h p (step {u = u} before e enabled is_v) =
    subst P is_v (keep e u enabled (Later-invariant P keep g u p before))
