-- ===== src/Monitors/Service/Refinement/Tests.antt =====
-- A table of targets by their keys, and a run of the monitor service on it.
use social_monitor.Prelude.{
  ◌≡◌, refl, Text, text, ◌==◌, ==_refl, true, false, List, [], ◌∷◌, Option, none, some, arith,
  if◌then◌else◌,
}
use social_monitor.Core.{ok, err, Action}
use social_monitor.Schema.{
  MonitorType, x_user, tg_channel, tg_group, MonitorTarget, same_monitor_type,
}
use social_monitor.Database.{Prisma, TargetKey, TargetData, TargetPatch, by_type_external_id}
use social_monitor.Database
use social_monitor.Fixtures.{offline, refused, Script, scripted, accepting, world_of, io_of}
use social_monitor.World.{Services, World}
use social_monitor.Monitors.Normalize.{CreateMonitor}
use social_monitor.Monitors.Normalize.Required.{row_of}
use social_monitor.Monitors.Service.Laws.{TargetLaws, patched}
use social_monitor.Monitors.Service.Spec.{
  View, with_row, with_patch, without, patch_if, drop_if, Op, creating, switching, removing,
  finding, replay,
}
use social_monitor.Monitors.Service.Refinement.{ViewLaws, run, run_refines, ids_of, view}

-- A row that an id finds has it.
abbrev named : Text → Option MonitorTarget → Option MonitorTarget
named id none = none
named id (some m) = if m.id == id then some m else none

abbrev look_up : TargetKey → View → Option MonitorTarget
look_up (Database.TargetKey.by_id id) v = named id (v (Database.TargetKey.by_id id))
look_up (by_type_external_id type e) v = v (by_type_external_id type e)

abbrev fresh_id : Text
fresh_id = text "t1"

abbrev answer_row : Option MonitorTarget → View → Action View MonitorTarget
answer_row none w v = (err refused, v)
answer_row (some m) w v = (ok m, w)

abbrev table : Prisma View
table = record (offline View) {
  target_find_unique = λ k v. (ok (look_up k v), v);
  target_create = λ values v. (ok (row_of fresh_id values), with_row (row_of fresh_id values) v);
  target_update = λ id c v.
      answer_row (look_up (Database.TargetKey.by_id id) (with_patch id c v)) (with_patch id c v) v;
  target_delete = λ id v. answer_row (look_up (Database.TargetKey.by_id id) v) (without id v) v;
}

named_with :
    (id : Text) (m : MonitorTarget) (o : Option MonitorTarget)
    → named id (if m.id == id then some m else o) ≡ (if m.id == id then some m else named id o)
named_with id m o = ground arith

inserted :
    (values : TargetData) (v : View) (k : TargetKey)
    → look_up k (with_row (row_of fresh_id values) v)
      ≡ with_row (row_of fresh_id values) (λ j. look_up j v) k
inserted values v (Database.TargetKey.by_id id) = named_with id (row_of fresh_id values) _
inserted values v (by_type_external_id type e) = refl

named_patch :
    (id j : Text) (c : TargetPatch) (o : Option MonitorTarget)
    → named j (patch_if id c o) ≡ patch_if id c (named j o)
named_patch id j c none = refl
named_patch id j c (some m) = ground arith

updated :
    (id : Text) (c : TargetPatch) (v : View) (k : TargetKey)
    → look_up k (with_patch id c v) ≡ with_patch id c (λ j. look_up j v) k
updated id c v (Database.TargetKey.by_id j) = named_patch id j c _
updated id c v (by_type_external_id type e) = refl

named_drop :
    (id j : Text) (o : Option MonitorTarget) → named j (drop_if id o) ≡ drop_if id (named j o)
named_drop id j none = refl
named_drop id j (some m) = ground arith

deleted :
    (id : Text) (v : View) (k : TargetKey)
    → look_up k (without id v) ≡ without id (λ j. look_up j v) k
deleted id v (Database.TargetKey.by_id j) = named_drop id j _
deleted id v (by_type_external_id type e) = refl

patch_named :
    (id : Text) (c : TargetPatch) (o : Option MonitorTarget) (m : MonitorTarget)
    → named id o ≡ some m
    → named id (patch_if id c o) ≡ some (patched c m)
patch_named id c none m h = ground arith
patch_named id c (some n) m h = ground arith

drop_named : (id : Text) (o : Option MonitorTarget) → named id (drop_if id o) ≡ none
drop_named id none = refl
drop_named id (some n) = ground arith

same_type_refl : (t : MonitorType) → same_monitor_type t t ≡ true
same_type_refl x_user = refl
same_type_refl tg_channel = refl
same_type_refl tg_group = refl

by_id_found :
    (values : TargetData) (v : View)
    → look_up (Database.TargetKey.by_id fresh_id) (with_row (row_of fresh_id values) v)
      ≡ some (row_of fresh_id values)
unfolding ◌==◌
by_id_found values v = refl

by_key_found :
    (values : TargetData) (v : View)
    → with_row (row_of fresh_id values) v (by_type_external_id values.type values.external_id)
      ≡ some (row_of fresh_id values)
by_key_found values v = rw (same_type_refl values.type, ==_refl values.external_id) refl

abbrev base : TargetLaws table
base = record {
  find = look_up;
  new_id = λ v. fresh_id;
  inserted = λ values v. with_row (row_of fresh_id values) v;
  updated = with_patch;
  deleted = without;
  find_lem = λ k v. refl;
  insert_lem = λ values v h. (refl, by_id_found values v, by_key_found values v);
  update_lem = λ id c v m e h. (
    rw (patch_named id c (v (Database.TargetKey.by_id id)) m h) refl,
    patch_named id c (v (Database.TargetKey.by_id id)) m h,
  );
  delete_lem = λ id v m h. (rw h refl, drop_named id (v (Database.TargetKey.by_id id)));
}

abbrev laws : ViewLaws table
laws = record {
  base = base;
  inserted_lem = λ values v h k. inserted values v k;
  updated_lem = λ id c v e k. updated id c v k;
  deleted_lem = λ id v k. deleted id v k;
}

abbrev services : Services View Script (Unit {0})
services = record { prisma = table; network = scripted; bull = accepting }

abbrev empty : World View Script (Unit {0})
empty = world_of (λ k. none) (io_of [])

abbrev jack : CreateMonitor
jack = record {
  type = x_user;
  name = text "Jack";
  username = some (text "jack");
  external_id = none;
}

abbrev calls : List Op
calls =
    creating jack
    ∷ creating jack
    ∷ switching fresh_id false
    ∷ removing fresh_id
    ∷ finding fresh_id
    ∷ []

run_refines_example :
    let (answers, after) =
      replay calls (ids_of services laws calls empty) (view services laws empty.db) in
    ((run services calls empty).0 ≡ answers)
    × (view services laws (run services calls empty).1.db ≡ after)
run_refines_example = run_refines services laws calls empty (tt, (tt, (tt, (tt, (tt, tt)))))
