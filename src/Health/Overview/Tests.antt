-- ===== src/Health/Overview/Tests.antt =====
-- The overview of a program whose parts all fail.
use social_monitor.Prelude.{◌≡◌, text, false, [], some}
use social_monitor.Core.{ok, throw}
use social_monitor.World.{Services, World}
use social_monitor.Net.{Io}
use social_monitor.Fixtures.{Script, scripted, offline, accepting, refused, io_of, world_of}
use social_monitor.Health.{RedisProbe, Config, HealthStatus, overview, telegram_unset}
use social_monitor.Health.Overview.{overview_total, checks_of, Asked}
use social_monitor.Telegram.Samples.{manager}

abbrev probe : RedisProbe (Unit {0})
probe = record { connect_and_ping = λ host port password. throw refused; close = λ r. r }

abbrev config : Config
config key = some (text "1")

abbrev services : Services (Unit {0}) Script (Unit {0})
services = record { prisma = offline (Unit {0}); network = scripted; bull = accepting }

abbrev start : World (Unit {0}) Script (Unit {0})
start = world_of tt (io_of [])

overview_total_example :
    (telegram : HealthStatus) × (io : Io Script) × (overview services probe config manager start ≡ (
      ok (record {
        is_ok = false;
        checks = checks_of services probe config manager telegram start;
      }),
      record start { io = io },
    ))
    × Asked services probe config manager (telegram_unset config) start.io telegram io
overview_total_example = overview_total services probe config manager start
