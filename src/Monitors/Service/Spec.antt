-- ===== src/Monitors/Service/Spec.antt =====
-- What monitors/monitor.service.ts promises: its operations on an abstract table, which is a
-- function from the keys to the rows.
use social_monitor.Prelude.{
  Text, ◌==◌, Bool, ◌&&◌, List, [], ◌∷◌, Option, none, some, if◌then◌else◌,
}
use social_monitor.Core.{Result, ok, err}
use social_monitor.Schema.{MonitorTarget, same_monitor_type}
use social_monitor.Database.{TargetKey, TargetData, TargetPatch}
use social_monitor.Database
use social_monitor.Monitors.Normalize.{CreateMonitor, normalize_create, has_required_params}
use social_monitor.Monitors.Normalize.Required.{row_of}
use social_monitor.Monitors.Service.{
  MonitorDto, MonitorCheck, UpdateMonitor, to_dto, patch_of, enabled_patch, monitor_not_found,
  monitor_exists,
}
use social_monitor.Monitors.Service.Laws.{patched}

abbrev pub View : Type 0
View = TargetKey → Option MonitorTarget

-- The rows that a key names.
abbrev pub matches : TargetKey → MonitorTarget → Bool
matches (Database.TargetKey.by_id id) m = m.id == id
matches (Database.TargetKey.by_type_external_id type e) m =
    same_monitor_type m.type type && m.external_id == e

abbrev pub with_row : MonitorTarget → View → View
with_row m v k = if matches k m then some m else v k

abbrev pub patch_if : Text → TargetPatch → Option MonitorTarget → Option MonitorTarget
patch_if id c none = none
patch_if id c (some m) = some (if m.id == id then patched c m else m)

abbrev pub with_patch : Text → TargetPatch → View → View
with_patch id c v k = patch_if id c (v k)

abbrev pub drop_if : Text → Option MonitorTarget → Option MonitorTarget
drop_if id none = none
drop_if id (some m) = if m.id == id then none else some m

abbrev pub without : Text → View → View
without id v k = drop_if id (v k)

pub data Op : Type 0 where
  creating : CreateMonitor → Op
  updating : Text → UpdateMonitor → Op
  switching : Text → Bool → Op
  removing finding checking : Text → Op

pub data Answer : Type 0 where
  row : MonitorDto → Answer
  removed : Answer
  check_result : MonitorCheck → Answer

abbrev pub spec_insert : Text → TargetData → Option MonitorTarget → View → Result Answer × View
spec_insert id values none v = (ok (row (to_dto (row_of id values))), with_row (row_of id values) v)
spec_insert id values (some m) v = (err monitor_exists, v)

abbrev pub spec_create : Text → Result TargetData → View → Result Answer × View
spec_create id (err e) v = (err e, v)
spec_create id (ok values) v =
    spec_insert id values
      (v (Database.TargetKey.by_type_external_id values.type values.external_id)) v

-- An operation on the row that an id names, if there is one.
abbrev pub on_row :
    Text
    → (MonitorTarget → Answer)
    → (View → View)
    → Option MonitorTarget
    → View
    → Result Answer × View
on_row id answer change none v = (err (monitor_not_found id), v)
on_row id answer change (some m) v = (ok (answer m), change v)

abbrev pub spec_patch : Text → TargetPatch → View → Result Answer × View
spec_patch id c v =
    on_row id (λ m. row (to_dto (patched c m))) (with_patch id c) (v (Database.TargetKey.by_id id))
      v

-- One operation, with the id that a new row gets.
unfoldable pub spec : Op → Text → View → Result Answer × View
spec (creating dto) new_id v = spec_create new_id (normalize_create dto) v
spec (updating id dto) new_id v = spec_patch id (patch_of dto) v
spec (switching id enabled) new_id v = spec_patch id (enabled_patch enabled) v
spec (removing id) new_id v =
    on_row id (λ m. removed) (without id) (v (Database.TargetKey.by_id id)) v
spec (finding id) new_id v =
    on_row id (λ m. row (to_dto m)) (λ w. w) (v (Database.TargetKey.by_id id)) v
spec (checking id) new_id v =
    on_row id (λ m. check_result (record { valid = has_required_params m; name = m.name })) (λ w. w)
      (v (Database.TargetKey.by_id id)) v

-- A sequence of operations, with an id for each.
unfoldable pub replay : List Op → List Text → View → List (Result Answer) × View
replay [] ids v = ([], v)
replay (op ∷ ops) [] v = ([], v)
replay (op ∷ ops) (id ∷ ids) v =
    let (r, w) = spec op id v in let (rs, w') = replay ops ids w in (r ∷ rs, w')
