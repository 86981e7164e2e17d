-- ===== src/Health/Overview.antt =====
-- What `overview` of health/health.service.ts says of the parts, and that it always answers.
mod Tests
use social_monitor.Prelude.{
  ◌≡◌, refl, sym, ap, subst, ◌∙◌, Text, text, truthy, Bool, true, false, List, [], ◌∷◌, ◌++◌,
  Option, none, some, if◌then◌else◌, Bool-cases, inl, inr,
}
use mathlib.Core.List.{append-nil}
use social_monitor.Core.{Result, ok, err, continue, rescue, return}
use social_monitor.Net.{Io, Request}
use social_monitor.World.{World, Services, on_db, on_io, in_db}
use social_monitor.Telegram.Sidecar.{TelegramClientManager, is_healthy}
use social_monitor.Telegram.Sidecar.Requests.{is_healthy_total, health_request}
use social_monitor.Health.{
  HealthStatus, up, down, not_configured, HealthOverview, RedisProbe, Config, telegram_unset,
  up_or_down, down_on_error, overview, check_database, check_redis, check_telegram,
  check_telegram_bot, probe_worker, closed, setting, when_nonempty, HealthChecks, is_up,
}

module _ {D N R : Type 0} (sv : Services D N R) (probe : RedisProbe R) (config : Config)
    (m : TelegramClientManager) where
  abbrev pub reached : {A : Type 0} → Result A → HealthStatus
  reached (ok a) = up
  reached (err e) = down

  abbrev pub succeeds : {A : Type 0} → Result A → Bool
  succeeds (ok a) = true
  succeeds (err e) = false

  tried :
      (r : Result (Unit {0})) (s : World D N R)
      → rescue (down_on_error sv probe config m) (continue (λ _. return up) (r, s))
        ≡ (ok (reached r), s)
  tried (ok u) s = refl
  tried (err e) s = refl

  database_lem :
      (s : World D N R)
      → check_database sv probe config m s ≡ (
        ok (reached (sv.prisma.query_raw s.db).0),
        record s { db = (sv.prisma.query_raw s.db).1 },
      )
  unfolding check_database
  database_lem s = let (r, d) = sv.prisma.query_raw s.db in tried r (record s { db = d })

  abbrev pub ping : R → Result (Unit {0}) × R
  ping =
      probe.connect_and_ping (setting config (text "REDIS_HOST") (text "localhost"))
        (setting config (text "REDIS_PORT") (text "6379"))
        (when_nonempty (setting config (text "REDIS_PASSWORD") []))

  redis_lem :
      (s : World D N R)
      → check_redis sv probe config m s
        ≡ (ok (reached (ping s.redis).0), record s { redis = probe.close (ping s.redis).1 })
  unfolding check_redis
  redis_lem s =
      let (r, b) = ping s.redis in ap (closed sv probe config m) (tried r (record s { redis = b }))

  abbrev pub health_requests : Bool → List Request
  health_requests true = []
  health_requests false = health_request sv.network m ∷ []

  abbrev pub is_not_configured : HealthStatus → Bool
  is_not_configured up = false
  is_not_configured down = false
  is_not_configured not_configured = true

  -- The worker's part: what it says, and what has been sent for that.
  abbrev pub Asked : Bool → Io N → HealthStatus → Io N → Type 0
  Asked unset before status after =
      (is_not_configured status ≡ unset)
      × (after.requests ≡ before.requests ++ health_requests unset)

  probed : (b : Bool) → is_not_configured (up_or_down b) ≡ false
  probed true = refl
  probed false = refl

  probe_lem :
      (s : World D N R)
      → (status : HealthStatus) × (io : Io N) × (probe_worker sv probe config m s
          ≡ (ok status, record s { io = io }))
        × Asked false s.io status io
  probe_lem s =
      let (b, answered, sent) = is_healthy_total sv.network m s.io in
      let (r, io) = is_healthy sv.network m s.io in
      (up_or_down b, io, rw answered refl, (probed b, sent))

  telegram_lem :
      (s : World D N R)
      → (status : HealthStatus) × (io : Io N) × (check_telegram sv probe config m s
          ≡ (ok status, record s { io = io }))
        × Asked (telegram_unset config) s.io status io
  unfolding check_telegram
  telegram_lem s = elim (Bool-cases (telegram_unset config)) [
    | inl e ↦ rw e (not_configured, s.io, refl, (refl, sym (append-nil s.io.requests)))
    | inr e ↦ rw e (probe_lem s)
  ]

  abbrev pub checks_of : HealthStatus → World D N R → HealthChecks
  checks_of telegram s = record {
    postgresql = reached (sv.prisma.query_raw s.db).0;
    redis = reached (ping s.redis).0;
    telegram = telegram;
    x = not_configured;
    telegram_bot = check_telegram_bot sv probe config m;
    wechat = not_configured;
  }

  up_when : {A : Type 0} (r : Result A) → is_up sv probe config m (reached r) ≡ succeeds r
  up_when (ok a) = refl
  up_when (err e) = refl

  -- The overview never throws, whatever the database, Redis, the network and the worker do. Its
  -- status is ok exactly where the database answers; the probe of Redis is closed whether or not it
  -- answered; Telegram is not configured exactly where the API id or hash is unset, and the worker is
  -- asked for its health exactly where they are set.
  pub overview_total :
      (s : World D N R)
      → (telegram : HealthStatus) × (io : Io N) × (overview sv probe config m s ≡ (
        ok (record {
          is_ok = succeeds (sv.prisma.query_raw s.db).0;
          checks = checks_of telegram s;
        }),
        record s {
          db = (sv.prisma.query_raw s.db).1;
          redis = probe.close (ping s.redis).1;
          io = io;
        },
      ))
        × Asked (telegram_unset config) s.io telegram io
  unfolding overview check_telegram_bot
  overview_total s =
      let d = sv.prisma.query_raw s.db in
      let s1 = record s { db = d.1 } in
      let s2 = record s1 { redis = probe.close (ping s.redis).1 } in
      let (telegram, io, answered, asked) = telegram_lem s2 in
      (telegram, io, rw (database_lem s, redis_lem s1, answered, sym (up_when d.0)) refl, asked)
