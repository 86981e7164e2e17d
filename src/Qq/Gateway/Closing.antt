-- ===== src/Qq/Gateway/Closing.antt =====
-- How the connections of qq/qq-gateway.service.ts end.
use social_monitor.Prelude.{
  ℕ, ◌≡◌, refl, sym, subst, ◌<◌, ap, ◌∙◌, Text, true, false, [], ◌∷◌, Option, none, some,
}
use social_monitor.Core.{ok}
use social_monitor.Qq.Gateway.{
  Gateway, delay, clear_heartbeat, schedule_reconnect, close_on, close_and_reconnect, connected,
  on_module_destroy, handle_payload, reconnect, invalid_session, Payload,
}
use social_monitor.Qq.Gateway.Steps.{
  settled, reconnect_fires, closed, Enabled, act, Later, now, step,
}
use social_monitor.Qq.Gateway.Scheduling.{scheduled, schedule_idle, busy_unless}

close_awaits : (w : Option ℕ) (g : Gateway) → (close_on w g).connecting ≡ g.connecting
close_awaits none g = refl
close_awaits (some i) g = refl

close_shut : (w : Option ℕ) (g : Gateway) → (close_on w g).shutting_down ≡ g.shutting_down
close_shut none g = refl
close_shut (some i) g = refl

-- The end of the module clears both timers, and closes and lets go of the socket in use.
pub destroyed_lem :
    (g : Gateway) (i : ℕ)
    → g.ws ≡ some i
    → let h = on_module_destroy g in
      (h.ws ≡ none)
      × (h.closes ≡ i ∷ g.closes)
      × (h.heartbeat_timer ≡ none)
      × (h.reconnect_timer ≡ none)
      × (h.shutting_down ≡ true)
unfolding on_module_destroy clear_heartbeat
destroyed_lem g i e =
    let ended = record (clear_heartbeat g) { shutting_down = true; reconnect_timer = none } in
    let closed = ap (λ w. close_on w ended) e in
    (
      ap (λ u. u.ws) closed,
      ap (λ u. u.closes) closed,
      ap (λ u. u.heartbeat_timer) closed,
      ap (λ u. u.reconnect_timer) closed,
      ap (λ u. u.shutting_down) closed,
    )

destroyed_awaits : (g : Gateway) → (on_module_destroy g).connecting ≡ g.connecting
unfolding on_module_destroy clear_heartbeat
destroyed_awaits g =
    close_awaits g.ws (record (clear_heartbeat g) { shutting_down = true; reconnect_timer = none })

destroyed_shut : (g : Gateway) → (on_module_destroy g).shutting_down ≡ true
unfolding on_module_destroy clear_heartbeat
destroyed_shut g =
    close_shut g.ws (record (clear_heartbeat g) { shutting_down = true; reconnect_timer = none })

connects_shut :
    (url token : Text) (g : Gateway)
    → g.shutting_down ≡ true
    → let h = act (settled (ok (url, token))) g in
      (h.ws ≡ some g.sockets) × (h.shutting_down ≡ true) × (h.closes ≡ g.closes)
unfolding connected
connects_shut url token g shut = (refl, shut, refl)

-- A call of `connect` that still awaits its answers when the module ends is not stopped: from the
-- ended module a later state is possible in which a new socket is in use, while the module is shut
-- down and has closed no further socket.
pub late_connect :
    (g : Gateway) (url token : Text)
    → 0 < g.connecting
    → let ended = on_module_destroy g in
      (h : Gateway) × Later ended h
      × (h.ws ≡ some ended.sockets)
      × (h.shutting_down ≡ true)
      × (h.closes ≡ ended.closes)
late_connect g url token awaits =
    let ended = on_module_destroy g in
    let e = settled (ok (url, token)) in
    let enabled : Enabled e ended = subst (λ n. 0 < n) (sym (destroyed_awaits g)) awaits in
    let (used, shut, same) = connects_shut url token ended (destroyed_shut g) in
    (act e ended, step now e enabled refl, used, shut, same)

closes_and_schedules :
    (u : Gateway) (i : ℕ)
    → u.ws ≡ some i
    → u.reconnect_timer ≡ none
    → u.shutting_down ≡ false
    → close_and_reconnect u ≡ scheduled (close_on (some i) (clear_heartbeat u))
unfolding close_and_reconnect clear_heartbeat
closes_and_schedules u i e idle running =
    ap (λ w. schedule_reconnect (close_on w (clear_heartbeat u))) e
    ∙ schedule_idle (close_on (some i) (clear_heartbeat u))
        (busy_unless (close_on (some i) (clear_heartbeat u)) idle running)

-- The gateway's demand to reconnect closes the socket in use and schedules a new connection, and
-- the session stays; an invalid session does the same and forgets the session.
pub reconnect_demand :
    (g : Gateway) (p : Payload) (i : ℕ)
    → g.ws ≡ some i
    → g.reconnect_timer ≡ none
    → g.shutting_down ≡ false
    → let h = handle_payload reconnect p g in
      let h' = handle_payload invalid_session p g in
      ((h.ws ≡ none)
        × (h.closes ≡ i ∷ g.closes)
        × (h.session_id ≡ g.session_id)
        × (h.reconnect_timer ≡ some (delay g.reconnect_attempts)))
      × ((h'.ws ≡ none)
          × (h'.closes ≡ i ∷ g.closes)
          × (h'.session_id ≡ none)
          × (h'.reconnect_timer ≡ some (delay g.reconnect_attempts)))
unfolding handle_payload close_and_reconnect clear_heartbeat
reconnect_demand g p i e idle running =
    let part = closes_and_schedules g i e idle running in
    let part' = closes_and_schedules (record g { session_id = none }) i e idle running in
    (
      (
        ap (λ u. u.ws) part,
        ap (λ u. u.closes) part,
        ap (λ u. u.session_id) part,
        ap (λ u. u.reconnect_timer) part,
      ),
      (
        ap (λ u. u.ws) part',
        ap (λ u. u.closes) part',
        ap (λ u. u.session_id) part',
        ap (λ u. u.reconnect_timer) part',
      ),
    )

-- The payload by which the gateway demands to reconnect.
abbrev pub demand : Payload
demand = record { op = 7; d = []; s = none; t = none }

abbrev demanded : Gateway → ℕ → Gateway
demanded g i = scheduled (close_on (some i) (clear_heartbeat g))

abbrev renewed : Gateway → ℕ → Text → Text → Gateway
renewed g i url token = act (settled (ok (url, token))) (act reconnect_fires (demanded g i))
