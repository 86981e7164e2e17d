-- ===== src/Qq/Gateway/Backoff.antt =====
-- How long the gateway of qq/qq-gateway.service.ts waits before it connects again.
use social_monitor.Prelude.{
  ℕ, zero, suc, ◌+◌, ◌*◌, ◌^◌, ◌≤◌, ◌≡◌, refl, ap, ◌∙◌, Text, min, List, [], ◌∷◌, length, false,
  none, some, arith, if◌then◌else◌,
}
use social_monitor.Core.{Exception, ok, err}
use social_monitor.Qq.Gateway.Scheduling.{schedule_idle, busy_unless}
use social_monitor.Qq.Gateway.{
  Gateway, delay, connected, reconnect_now, connect, handle_close, clear_heartbeat,
  schedule_reconnect,
}

pow_positive : (n : ℕ) → 1 ≤ 2 ^ n
pow_positive zero = omega arith
pow_positive (suc n) = let h = pow_positive n in omega arith

pow_six : (n : ℕ) → 2 ^ (6 + n) ≡ 64 * 2 ^ n
pow_six zero = refl
pow_six (suc n) =
    let h = pow_six n in
    let e : 6 + suc n ≡ suc (6 + n) = omega arith in
    let k : 2 ^ suc (6 + n) ≡ 2 * 2 ^ (6 + n) = omega arith in rw e (omega arith)

-- The delay is between one second and one minute, never falls as the attempts go on, is a second
-- after none, and stays a minute from the sixth on.
pub delay_bounds :
    (n : ℕ)
    → (1000 ≤ delay n) × (delay n ≤ 60000) × (delay n ≤ delay (suc n)) × (delay (6 + n) ≡ 60000)
unfolding delay
delay_bounds n =
    let h = pow_positive n in
    let k : 2 ^ suc n ≡ 2 * 2 ^ n = omega arith in
    let l = pow_six n in (omega arith, omega arith, omega arith, omega arith)

-- How an attempt fails: the address or the token does not come, or they come and the socket made
-- with them closes.
pub data Failure : Type 0 where
  unprepared : Exception → Failure
  dropped : (url token : Text) → Failure

abbrev pub failed_attempt : Failure → Gateway → Gateway
failed_attempt (unprepared e) g = connected (err e) g
failed_attempt (dropped url token) g = handle_close (connected (ok (url, token)) g)

-- Attempts that fail one after the other: `first`, and those of the list, the last at its head. After
-- each, the timer fires and the gateway connects again.
abbrev pub failures : Failure → List Failure → Gateway → Gateway
failures first [] g = failed_attempt first g
failures first (f ∷ fs) g = failed_attempt f (reconnect_now (failures first fs g))

-- The gateway of after a failure.
record Waits (g h : Gateway) : Type 0 where
  timer : h.reconnect_timer ≡ some (min (1000 * 2 ^ g.reconnect_attempts) 60000)
  attempts : h.reconnect_attempts ≡ g.reconnect_attempts + 1
  running : h.shutting_down ≡ false

fails_once :
    (f : Failure) (g : Gateway)
    → g.reconnect_timer ≡ none
    → g.shutting_down ≡ false
    → Waits g (failed_attempt f g)
unfolding connected handle_close clear_heartbeat delay
fails_once (unprepared e) g h k =
    let s = schedule_idle g (busy_unless g h k) in
    record {
      timer = ap (λ u. u.reconnect_timer) s;
      attempts = ap (λ u. u.reconnect_attempts) s;
      running = ap (λ u. u.shutting_down) s ∙ k;
    }
fails_once (dropped url token) g h k =
    let c = record (connected (ok (url, token)) g) { heartbeat_timer = none; ws = none } in
    let running = ap (λ b. if b then c else schedule_reconnect c) k in
    let s = running ∙ schedule_idle c (busy_unless c h k) in
    record {
      timer = ap (λ u. u.reconnect_timer) s;
      attempts = ap (λ u. u.reconnect_attempts) s;
      running = ap (λ u. u.shutting_down) s ∙ k;
    }

fires_unset : (g : Gateway) → (reconnect_now g).reconnect_timer ≡ none
unfolding reconnect_now connect
fires_unset g = refl

fires_same :
    (g : Gateway)
    → ((reconnect_now g).reconnect_attempts ≡ g.reconnect_attempts)
      × ((reconnect_now g).shutting_down ≡ g.shutting_down)
unfolding reconnect_now connect
fires_same g = (refl, refl)

-- Attempts that fail one after the other, each because the address or the token does not come or
-- because the new socket closes, from a state that is not shutting down and has no timer set: each
-- is counted and sets the timer for the next, which waits 1000 ms times two to the number of the
-- attempts before it, and never more than 60000 ms; so the gateway never stops trying.
pub failures_lem :
    (first : Failure) (fs : List Failure) (g : Gateway)
    → g.reconnect_timer ≡ none
    → g.shutting_down ≡ false
    → let h = failures first fs g in
      (h.reconnect_timer ≡ some (min (1000 * 2 ^ (g.reconnect_attempts + length fs)) 60000))
      × (h.reconnect_attempts ≡ g.reconnect_attempts + (length fs + 1))
      × (h.shutting_down ≡ false)
failures_lem first [] g h k =
    let w = fails_once first g h k in
    let a : g.reconnect_attempts ≡ g.reconnect_attempts + 0 = omega arith in
    let b : g.reconnect_attempts + 1 ≡ g.reconnect_attempts + (0 + 1) = omega arith in
    (w.timer ∙ ap (λ n. some (min (1000 * 2 ^ n) 60000)) a, w.attempts ∙ b, w.running)
failures_lem first (f ∷ fs) g h k =
    let (_, attempts, running) = failures_lem first fs g h k in
    let u = failures first fs g in
    let n = length fs in
    let (same, same') = fires_same u in
    let w = fails_once f (reconnect_now u) (fires_unset u) (same' ∙ running) in
    let a : g.reconnect_attempts + (n + 1) ≡ g.reconnect_attempts + suc n = omega arith in
    let b : g.reconnect_attempts + (n + 1) + 1 ≡ g.reconnect_attempts + (suc n + 1) = omega arith in
    (
      w.timer ∙ ap (λ m. some (min (1000 * 2 ^ m) 60000)) (same ∙ (attempts ∙ a)),
      w.attempts ∙ (ap (λ m. m + 1) (same ∙ attempts) ∙ b),
      w.running,
    )
