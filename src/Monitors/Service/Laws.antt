-- ===== src/Monitors/Service/Laws.antt =====
-- What the monitor service relies on in the database client.
use social_monitor.Prelude.{Text, ◌≡◌, ◌⊎◌, Option, none, some}
use social_monitor.Core.{ok, or_default}
use social_monitor.Schema.{MonitorTarget}
use social_monitor.Database.{Prisma, TargetKey, TargetData, TargetPatch}
use social_monitor.Database
use social_monitor.Monitors.Normalize.Required.{row_of}

-- An update that leaves the external id of a row.
abbrev pub KeepsId : TargetPatch → MonitorTarget → Type 0
KeepsId c m = (c.external_id ≡ none) ⊎ (c.external_id ≡ some m.external_id)

-- A row after an update that leaves its external id: the members that are given are written.
abbrev pub patched : TargetPatch → MonitorTarget → MonitorTarget
patched c m = record m {
  name = or_default c.name m.name;
  username = elim c.username [ none ↦ m.username | some u ↦ some u ];
  enabled = or_default c.enabled m.enabled;
  last_message_at = elim c.last_message_at [ none ↦ m.last_message_at | some t ↦ some t ];
}

-- A look-up reads only. An insert under a key that is free adds the row, which both keys then find.
-- An update of a row that is there, without its key, and a delete of one, do what they say.
pub record TargetLaws {D : Type 0} (p : Prisma D) : Type 0 where
  pub find : TargetKey → D → Option MonitorTarget
  pub new_id : D → Text
  pub inserted : TargetData → D → D
  pub updated : Text → TargetPatch → D → D
  pub deleted : Text → D → D
  pub find_lem : (k : TargetKey) (d : D) → p.target_find_unique k d ≡ (ok (find k d), d)
  pub insert_lem :
      (v : TargetData) (d : D)
      → find (Database.TargetKey.by_type_external_id v.type v.external_id) d ≡ none
      → (p.target_create v d ≡ (ok (row_of (new_id d) v), inserted v d))
        × (find (Database.TargetKey.by_id (new_id d)) (inserted v d) ≡ some (row_of (new_id d) v))
        × (find (Database.TargetKey.by_type_external_id v.type v.external_id) (inserted v d)
            ≡ some (row_of (new_id d) v))
  pub update_lem :
      (id : Text) (c : TargetPatch) (d : D) (m : MonitorTarget)
      → KeepsId c m
      → find (Database.TargetKey.by_id id) d ≡ some m
      → (p.target_update id c d ≡ (ok (patched c m), updated id c d))
        × (find (Database.TargetKey.by_id id) (updated id c d) ≡ some (patched c m))
  pub delete_lem :
      (id : Text) (d : D) (m : MonitorTarget)
      → find (Database.TargetKey.by_id id) d ≡ some m
      → (p.target_delete id d ≡ (ok m, deleted id d))
        × (find (Database.TargetKey.by_id id) (deleted id d) ≡ none)
