-- ===== src/Monitors/Service/Switching/Tests.antt =====
-- Switching and updating a monitor at concrete input.
use social_monitor.Prelude.{◌≡◌, refl, text, false, true, ◌==◌, [], ◌∷◌, ◌++◌, none, some}
use social_monitor.Core.{ok, err, api_data}
use social_monitor.Schema.{x_user, MonitorTarget}
use social_monitor.World.{Services, World, monitor_status_changed, world_now}
use social_monitor.Fixtures.{scripted, accepting, world_of, io_of, Script}
use social_monitor.Monitors.Service.{
  set_enabled, find_one, update_monitor, UpdateMonitor, patch_of, to_dto, monitor_not_found,
}
use social_monitor.Monitors.Service.Laws.{patched}
use social_monitor.Monitors.Service.Switching.{
  set_enabled_present, set_enabled_absent, update_present,
}
use social_monitor.Monitors.Service.Table.{Table, table, table_laws, look_up}
use social_monitor.Database

abbrev jack : MonitorTarget
jack = record {
  id = text "t7";
  type = x_user;
  name = text "Jack";
  username = some (text "jack");
  external_id = text "12";
  enabled = true;
  last_message_at = none;
}

abbrev services : Services Table Script (Unit {0})
services = record { prisma = table; network = scripted; bull = accepting }

abbrev with_jack : World Table Script (Unit {0})
with_jack = world_of (some jack) (io_of [])

abbrev renaming : UpdateMonitor
renaming = record {
  name = some (text "Jack D.");
  username = none;
  external_id = none;
  enabled = none;
}

jack_lem : look_up (Database.TargetKey.by_id (text "t7")) (some jack) ≡ some jack
unfolding ◌==◌
jack_lem = refl

absent_lem : look_up (Database.TargetKey.by_id (text "t8")) (some jack) ≡ none
unfolding ◌==◌
absent_lem = refl

set_enabled_present_example :
    let now = record jack { enabled = false } in
    let r = set_enabled services (text "t7") false with_jack in
    (r.0 ≡ ok (api_data (to_dto now)))
    × (find_one table (text "t7") r.1.db ≡ (ok (api_data (to_dto now)), r.1.db))
    × (r.1.events
        ≡ with_jack.events
          ++ (record {
            event = monitor_status_changed (text "t7") false x_user;
            timestamp = world_now services with_jack;
          }
              ∷ []))
    × (r.1.jobs ≡ with_jack.jobs)
set_enabled_present_example =
    set_enabled_present services table_laws (text "t7") false jack with_jack jack_lem

set_enabled_absent_run :
    (set_enabled services (text "t8") false with_jack
      ≡ (err (monitor_not_found (text "t8")), with_jack))
    × (update_monitor table (text "t8") renaming (some jack)
        ≡ (err (monitor_not_found (text "t8")), some jack))
set_enabled_absent_run =
    set_enabled_absent services table_laws (text "t8") false renaming with_jack absent_lem

update_present_run :
    let now = patched (patch_of renaming) jack in
    let r = update_monitor table (text "t7") renaming (some jack) in
    (r.0 ≡ ok (api_data (to_dto now)))
    × (find_one table (text "t7") r.1 ≡ (ok (api_data (to_dto now)), r.1))
update_present_run =
    update_present services table_laws (text "t7") renaming jack (some jack) jack_lem refl
