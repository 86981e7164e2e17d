-- ===== src/Monitors/Service/Lifecycle.antt =====
-- A monitor from its creation to its removal, in monitors/monitor.service.ts.
mod Tests
use social_monitor.Prelude.{◌≡◌, refl, ap, ◌∙◌, Text, trim, Bool, true, Option, none, some, arith}
use social_monitor.Core.{Result, ok, err, api_data}
use social_monitor.Schema.{MonitorTarget}
use social_monitor.Database.{Prisma, TargetData}
use social_monitor.Database
use social_monitor.Monitors.Normalize.{CreateMonitor, normalize_create, has_required_params}
use social_monitor.Monitors.Normalize.Required.{row_of, normalize_create-has_required_params}
use social_monitor.Monitors.Service.{
  create, find_one, check, remove, to_dto, monitor_exists, monitor_not_found,
}
use social_monitor.Monitors.Service.Laws.{TargetLaws}

module _ {D : Type 0} (p : Prisma D) (laws : TargetLaws p) where
  pub find_one-present :
      (id : Text) (m : MonitorTarget) (d : D)
      → laws.find (Database.TargetKey.by_id id) d ≡ some m
      → find_one p id d ≡ (ok (api_data (to_dto m)), d)
  unfolding find_one
  find_one-present id m d h = rw (laws.find_lem (Database.TargetKey.by_id id) d, h)

  pub find_one-absent :
      (id : Text) (d : D)
      → laws.find (Database.TargetKey.by_id id) d ≡ none
      → find_one p id d ≡ (err (monitor_not_found id), d)
  unfolding find_one
  find_one-absent id d h = rw (laws.find_lem (Database.TargetKey.by_id id) d, h)

  pub check_present :
      (id : Text) (m : MonitorTarget) (d : D)
      → laws.find (Database.TargetKey.by_id id) d ≡ some m
      → check p id d ≡ (ok (api_data (record { valid = has_required_params m; name = m.name })), d)
  unfolding check
  check_present id m d h = rw (laws.find_lem (Database.TargetKey.by_id id) d, h)

  pub check_absent :
      (id : Text) (d : D)
      → laws.find (Database.TargetKey.by_id id) d ≡ none
      → check p id d ≡ (err (monitor_not_found id), d)
  unfolding check
  check_absent id d h = rw (laws.find_lem (Database.TargetKey.by_id id) d, h)

  -- The key that the normalized input asks for.
  abbrev pub holder : TargetData → D → Option MonitorTarget
  holder v d = laws.find (Database.TargetKey.by_type_external_id v.type v.external_id) d

  pub create_free :
      (dto : CreateMonitor) (v : TargetData) (d : D)
      → normalize_create dto ≡ ok v
      → holder v d ≡ none
      → create p dto d ≡ (ok (api_data (to_dto (row_of (laws.new_id d) v))), laws.inserted v d)
  unfolding create
  create_free dto v d h free = rw (
    h,
    laws.find_lem (Database.TargetKey.by_type_external_id v.type v.external_id) d,
    free,
    (laws.insert_lem v d free).0,
  )

  pub create_taken :
      (dto : CreateMonitor) (v : TargetData) (d : D) (m : MonitorTarget)
      → normalize_create dto ≡ ok v
      → holder v d ≡ some m
      → create p dto d ≡ (err monitor_exists, d)
  unfolding create
  create_taken dto v d m h taken =
      rw (h, laws.find_lem (Database.TargetKey.by_type_external_id v.type v.external_id) d, taken)

  -- A monitor created from accepted input under a free key: `create` answers the new row, which
  -- `findOne` then gives; `check` finds it valid, under the trimmed name; and creating it again is
  -- refused with MONITOR_EXISTS and changes nothing.
  pub created_monitor :
      (dto : CreateMonitor) (v : TargetData) (d : D)
      → normalize_create dto ≡ ok v
      → holder v d ≡ none
      → let id = laws.new_id d in
        let after = laws.inserted v d in
        (create p dto d ≡ (ok (api_data (to_dto (row_of id v))), after))
        × (find_one p id after ≡ (ok (api_data (to_dto (row_of id v))), after))
        × (check p id after
            ≡ (ok (api_data (record { valid = true; name = trim dto.name })), after))
        × (create p dto after ≡ (err monitor_exists, after))
  created_monitor dto v d h free =
      let id = laws.new_id d in
      let after = laws.inserted v d in
      let (made, by_id, by_key) = laws.insert_lem v d free in
      let (_, name, _, _, valid) = normalize_create-has_required_params dto v id h in
      (
        create_free dto v d h free,
        find_one-present id (row_of id v) after by_id,
        check_present id (row_of id v) after by_id ∙ rw (valid, name) refl,
        create_taken dto v after (row_of id v) h by_key,
      )

  pub remove_present :
      (id : Text) (m : MonitorTarget) (d : D)
      → laws.find (Database.TargetKey.by_id id) d ≡ some m
      → remove p id d ≡ (ok (api_data true), laws.deleted id d)
  unfolding remove
  remove_present id m d h =
      rw (laws.find_lem (Database.TargetKey.by_id id) d, h, (laws.delete_lem id d m h).0)

  pub remove_absent :
      (id : Text) (d : D)
      → laws.find (Database.TargetKey.by_id id) d ≡ none
      → remove p id d ≡ (err (monitor_not_found id), d)
  unfolding remove
  remove_absent id d h = rw (laws.find_lem (Database.TargetKey.by_id id) d, h)

  -- Removing a monitor that is there succeeds, and after it `findOne` and a second removal throw
  -- MONITOR_NOT_FOUND and change nothing.
  pub removed_monitor :
      (id : Text) (m : MonitorTarget) (d : D)
      → laws.find (Database.TargetKey.by_id id) d ≡ some m
      → let after = laws.deleted id d in
        (remove p id d ≡ (ok (api_data true), after))
        × (find_one p id after ≡ (err (monitor_not_found id), after))
        × (remove p id after ≡ (err (monitor_not_found id), after))
  removed_monitor id m d h =
      let gone = (laws.delete_lem id d m h).1 in
      (
        remove_present id m d h,
        find_one-absent id (laws.deleted id d) gone,
        remove_absent id (laws.deleted id d) gone,
      )
