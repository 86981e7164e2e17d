-- ===== src/Qq/Gateway/Scheduling.antt =====
-- When `scheduleReconnect` of qq/qq-gateway.service.ts sets the timer.
use social_monitor.Prelude.{◌+◌, ◌≡◌, ap, Bool, true, false, ◌||◌, none, some, arith, if◌then◌else◌}
use social_monitor.Qq.Gateway.{Gateway, delay, schedule_reconnect, is_set}

-- The timer is set, or the module shuts down.
abbrev pub is_busy : Gateway → Bool
is_busy g = is_set g.reconnect_timer || g.shutting_down

abbrev pub scheduled : Gateway → Gateway
scheduled g = record g {
  reconnect_attempts = g.reconnect_attempts + 1;
  reconnect_timer = some (delay g.reconnect_attempts);
}

pub schedule_busy : (g : Gateway) → is_busy g ≡ true → schedule_reconnect g ≡ g
unfolding schedule_reconnect
schedule_busy g h = ap (λ b. if b then g else scheduled g) h

pub schedule_idle : (g : Gateway) → is_busy g ≡ false → schedule_reconnect g ≡ scheduled g
unfolding schedule_reconnect
schedule_idle g h = ap (λ b. if b then g else scheduled g) h

pub busy_unless :
    (g : Gateway) → g.reconnect_timer ≡ none → g.shutting_down ≡ false → is_busy g ≡ false
busy_unless g h k = ground arith

pub idle-running : (g : Gateway) → is_busy g ≡ false → g.shutting_down ≡ false
idle-running g h = ground arith

-- A property of both branches is one of the whole.
pub branches :
    (P : Gateway → Type 0) (b : Bool) (u v : Gateway) → P u → P v → P (if b then u else v)
branches P true u v p q = p
branches P false u v p q = q
