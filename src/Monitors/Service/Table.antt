-- ===== src/Monitors/Service/Table.antt =====
-- A concrete table of targets that keeps its last row, for the tests of the monitor service.
use social_monitor.Prelude.{
  ◌≡◌, refl, Text, text, ◌==◌, ==_refl, Bool, true, false, ◌&&◌, Option, none, some, arith,
  if◌then◌else◌,
}
use social_monitor.Core.{ok, err, Action}
use social_monitor.Schema.{MonitorType, x_user, tg_channel, tg_group, MonitorTarget}
use social_monitor.Database.{Prisma, TargetKey, by_id, by_type_external_id, TargetData, TargetPatch}
use social_monitor.Database
use social_monitor.Fixtures.{offline, refused}
use social_monitor.Monitors.Normalize.Required.{row_of}
use social_monitor.Monitors.Service.Laws.{TargetLaws, patched}

abbrev pub same_type : MonitorType → MonitorType → Bool
same_type x_user x_user = true
same_type tg_channel tg_channel = true
same_type tg_group tg_group = true
same_type _ _ = false

same_type_refl : (t : MonitorType) → same_type t t ≡ true
same_type_refl x_user = refl
same_type_refl tg_channel = refl
same_type_refl tg_group = refl

abbrev matches : TargetKey → MonitorTarget → Bool
matches (Database.TargetKey.by_id id) m = m.id == id
matches (by_type_external_id type e) m = same_type m.type type && m.external_id == e

abbrev pub Table : Type 0
Table = Option MonitorTarget

abbrev pub look_up : TargetKey → Table → Option MonitorTarget
look_up k none = none
look_up k (some m) = if matches k m then some m else none

abbrev pub fresh_id : Text
fresh_id = text "t1"

abbrev pub insert_row : TargetData → Table → Table
insert_row v d = some (row_of fresh_id v)

-- A row that is not there is not written.
abbrev pub update_row : Text → TargetPatch → Table → Table
update_row id c none = none
update_row id c (some m) = if m.id == id then some (patched c m) else some m

abbrev answer_row : Option MonitorTarget → Table → Action Table MonitorTarget
answer_row none d' d = (err refused, d)
answer_row (some m) d' d = (ok m, d')

abbrev pub table : Prisma Table
table = record (offline Table) {
  target_find_unique = λ k d. (ok (look_up k d), d);
  target_create = λ v d. (ok (row_of fresh_id v), insert_row v d);
  target_update = λ id c d.
      answer_row (look_up (Database.TargetKey.by_id id) (update_row id c d)) (update_row id c d) d;
  target_delete = λ id d. answer_row (look_up (Database.TargetKey.by_id id) d) none d;
}

pub update_row_lem :
    (id : Text) (c : TargetPatch) (d : Table) (m : MonitorTarget)
    → look_up (Database.TargetKey.by_id id) d ≡ some m
    → look_up (Database.TargetKey.by_id id) (update_row id c d) ≡ some (patched c m)
update_row_lem id c none m h = ground arith
update_row_lem id c (some m') m h = ground arith

pub insert_row_lem :
    (v : TargetData)
    → look_up
        (Database.TargetKey.by_type_external_id v.type v.external_id)
        (some (row_of fresh_id v))
      ≡ some (row_of fresh_id v)
insert_row_lem v = rw (same_type_refl v.type, ==_refl v.external_id) refl

pub insert_id_lem :
    (v : TargetData)
    → look_up (Database.TargetKey.by_id fresh_id) (some (row_of fresh_id v))
      ≡ some (row_of fresh_id v)
insert_id_lem v = rw (==_refl fresh_id) refl

abbrev pub table_laws : TargetLaws table
table_laws = record {
  find = look_up;
  new_id = λ d. fresh_id;
  inserted = insert_row;
  updated = update_row;
  deleted = λ id d. none;
  find_lem = λ k d. refl;
  insert_lem = λ v d h. (refl, insert_id_lem v, insert_row_lem v);
  update_lem = λ id c d m e h. (rw (update_row_lem id c d m h) refl, update_row_lem id c d m h);
  delete_lem = λ id d m h. (rw h refl, refl);
}
