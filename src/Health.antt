-- ===== src/Health.antt =====
-- health/health.service.ts: the state of what the program depends on.
pub mod Overview
use social_monitor.Prelude.{
  Text, text, ◌==◌, truthy, nonempty, Bool, true, false, not, ◌||◌, Option, none, some,
  if◌then◌else◌, [],
}
use social_monitor.Core.{
  Exception, Action, Result, ok, err, ◌>>=◌, ◌>>◌, continue, return, catch, rescue, or_default,
}
use social_monitor.World.{World, Services, on_db, on_io, on_redis, in_db, in_io, in_redis}
use social_monitor.Telegram.Sidecar.{TelegramClientManager, is_healthy}

pub data HealthStatus : Type 0 where
  up down not_configured : HealthStatus

pub record HealthChecks : Type 0 where
  pub postgresql : HealthStatus
  pub redis : HealthStatus
  pub telegram : HealthStatus
  pub x : HealthStatus
  pub telegram_bot : HealthStatus
  pub wechat : HealthStatus

-- `status: "ok" | "degraded"` is the field `is_ok`; `service` is a constant.
pub record HealthOverview : Type 0 where
  pub is_ok : Bool
  pub checks : HealthChecks

-- A fresh Redis client that connects, pings, and is closed again whatever comes of it.
pub record RedisProbe (R : Type 0) : Type 0 where
  pub connect_and_ping : (host port : Text) (password : Option Text) → Action R (Unit {0})
  pub close : R → R

-- The configuration: the values that are set.
abbrev pub Config : Type 0
Config = Text → Option Text

-- `config.get(key, fallback)`
abbrev pub setting : Config → Text → Text → Text
setting config key fallback = or_default (config key) fallback

-- `s || undefined`
abbrev pub when_nonempty : Text → Option Text
when_nonempty s = if nonempty s then some s else none

abbrev pub up_or_down : Bool → HealthStatus
up_or_down true = up
up_or_down false = down

abbrev pub telegram_unset : Config → Bool
telegram_unset config =
    let api_id = setting config (text "TELEGRAM_API_ID") (text "0") in
    let api_hash = setting config (text "TELEGRAM_API_HASH") [] in
    not (nonempty api_id) || api_id == text "0" || not (nonempty api_hash)

module _ {D N R : Type 0} (sv : Services D N R) (probe : RedisProbe R) (config : Config)
    (m : TelegramClientManager) where
  abbrev pub down_on_error : Exception → Action (World D N R) HealthStatus
  down_on_error e = return down

  unfoldable pub check_database : Action (World D N R) HealthStatus
  check_database = catch (do on_db sv.prisma.query_raw; return up) down_on_error

  abbrev pub closed : Result HealthStatus × World D N R → Result HealthStatus × World D N R
  closed (r, s) = (r, record s { redis = probe.close s.redis })

  unfoldable pub check_redis : Action (World D N R) HealthStatus
  check_redis s = closed (
      catch
        (do
          on_redis (
              probe.connect_and_ping (setting config (text "REDIS_HOST") (text "localhost"))
                (setting config (text "REDIS_PORT") (text "6379"))
                (when_nonempty (setting config (text "REDIS_PASSWORD") [])))
          return up)
        down_on_error s)

  abbrev pub probe_worker : Action (World D N R) HealthStatus
  probe_worker = do healthy ← on_io (is_healthy sv.network m); return (up_or_down healthy)

  unfoldable pub check_telegram : Action (World D N R) HealthStatus
  check_telegram = if telegram_unset config then return not_configured else probe_worker

  unfoldable pub check_telegram_bot : HealthStatus
  check_telegram_bot = if truthy (config (text "TELEGRAM_BOT_TOKEN")) then up else not_configured

  abbrev pub is_up : HealthStatus → Bool
  is_up up = true
  is_up down = false
  is_up not_configured = false

  unfoldable pub overview : Action (World D N R) HealthOverview
  unfolding check_database check_redis check_telegram check_telegram_bot
  overview = do
    postgresql ← check_database
    redis ← check_redis
    telegram ← check_telegram
    return (record {
      is_ok = is_up postgresql;
      checks = record {
        postgresql = postgresql;
        redis = redis;
        telegram = telegram;
        x = not_configured;
        telegram_bot = check_telegram_bot;
        wechat = not_configured;
      };
    })
