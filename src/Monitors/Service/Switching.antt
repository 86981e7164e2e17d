-- ===== src/Monitors/Service/Switching.antt =====
-- `setEnabled` and `update` of monitors/monitor.service.ts.
mod Tests
use social_monitor.Prelude.{◌≡◌, inl, refl, Text, Bool, List, [], ◌∷◌, ◌++◌, Option, none, some}
use social_monitor.Core.{Result, ok, err, api_data}
use social_monitor.Schema.{MonitorTarget}
use social_monitor.Database
use social_monitor.World.{Services, World, emit, monitor_status_changed, world_now}
use social_monitor.Monitors.Service.{
  set_enabled, find_one, ensure_exists, update_monitor, UpdateMonitor, patch_of, to_dto,
  monitor_not_found, enabled_patch,
}
use social_monitor.Monitors.Service.Laws.{TargetLaws, patched}
use social_monitor.Monitors.Service.Lifecycle.{find_one-present}

module _ {D N R : Type 0} (sv : Services D N R) (laws : TargetLaws sv.prisma) where
  pub ensure_present :
      (id : Text) (m : MonitorTarget) (d : D)
      → laws.find (Database.TargetKey.by_id id) d ≡ some m
      → ensure_exists sv.prisma id d ≡ (ok m, d)
  unfolding ensure_exists
  ensure_present id m d h = rw (laws.find_lem (Database.TargetKey.by_id id) d, h)

  pub ensure_absent :
      (id : Text) (d : D)
      → laws.find (Database.TargetKey.by_id id) d ≡ none
      → ensure_exists sv.prisma id d ≡ (err (monitor_not_found id), d)
  unfolding ensure_exists
  ensure_absent id d h = rw (laws.find_lem (Database.TargetKey.by_id id) d, h)

  -- Switching a monitor that is there answers the row with `enabled` as asked for and the rest
  -- unchanged, which `findOne` then gives; one event says so; no job is enqueued.
  pub set_enabled_present :
      (id : Text) (enabled : Bool) (m : MonitorTarget) (s : World D N R)
      → laws.find (Database.TargetKey.by_id id) s.db ≡ some m
      → let now = record m { enabled = enabled } in
        let r = set_enabled sv id enabled s in
        (r.0 ≡ ok (api_data (to_dto now)))
        × (find_one sv.prisma id r.1.db ≡ (ok (api_data (to_dto now)), r.1.db))
        × (r.1.events
            ≡ s.events
              ++ (record {
                event = monitor_status_changed id enabled m.type;
                timestamp = world_now sv s;
              }
                  ∷ []))
        × (r.1.jobs ≡ s.jobs)
  unfolding set_enabled emit
  set_enabled_present id enabled m s h =
      let (done, found) = laws.update_lem id (enabled_patch enabled) s.db m (inl refl) h in
      rw (ensure_present id m s.db h, done)
        (
          refl,
          find_one-present sv.prisma laws id (record m { enabled = enabled }) _ found,
          refl,
          refl,
        )

  -- Switching or updating a monitor that is not there throws MONITOR_NOT_FOUND, and changes, sends
  -- and enqueues nothing.
  pub set_enabled_absent :
      (id : Text) (enabled : Bool) (dto : UpdateMonitor) (s : World D N R)
      → laws.find (Database.TargetKey.by_id id) s.db ≡ none
      → (set_enabled sv id enabled s ≡ (err (monitor_not_found id), s))
        × (update_monitor sv.prisma id dto s.db ≡ (err (monitor_not_found id), s.db))
  unfolding set_enabled update_monitor
  set_enabled_absent id enabled dto s h = rw (ensure_absent id s.db h) (refl, refl)

  -- An update that leaves the external id answers the row with the given members written and the
  -- rest as it was, and `findOne` then gives that row.
  pub update_present :
      (id : Text) (dto : UpdateMonitor) (m : MonitorTarget) (d : D)
      → laws.find (Database.TargetKey.by_id id) d ≡ some m
      → dto.external_id ≡ none
      → let now = patched (patch_of dto) m in
        let r = update_monitor sv.prisma id dto d in
        (r.0 ≡ ok (api_data (to_dto now)))
        × (find_one sv.prisma id r.1 ≡ (ok (api_data (to_dto now)), r.1))
  unfolding update_monitor
  update_present id dto m d h e =
      let (done, found) = laws.update_lem id (patch_of dto) d m (inl e) h in
      rw (ensure_present id m d h, done)
        (refl, find_one-present sv.prisma laws id (patched (patch_of dto) m) _ found)
