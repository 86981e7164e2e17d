-- ===== src/Monitors/Repository.antt =====
-- monitors/monitor.repository.ts: the queries of the monitor service.
use social_monitor.Prelude.{ℕ, Text, List, Option}
use social_monitor.Core.{Action}
use social_monitor.Schema.{MonitorType, MonitorTarget}
use social_monitor.Database.{Prisma, FindMany, TargetWhere, TargetData, TargetPatch}
use social_monitor.Database

module _ {D : Type 0} (p : Prisma D) where
  unfoldable pub find_many : FindMany TargetWhere → Action D (List MonitorTarget)
  find_many args = p.target_find_many args

  unfoldable pub count : TargetWhere → Action D ℕ
  count filter = p.target_count filter

  unfoldable pub find_unique : Text → Action D (Option MonitorTarget)
  find_unique id = p.target_find_unique (Database.TargetKey.by_id id)

  unfoldable pub find_unique_by_type_external_id :
      MonitorType → Text → Action D (Option MonitorTarget)
  find_unique_by_type_external_id type external_id =
      p.target_find_unique (Database.TargetKey.by_type_external_id type external_id)

  unfoldable pub create : TargetData → Action D MonitorTarget
  create values = p.target_create values

  unfoldable pub update : Text → TargetPatch → Action D MonitorTarget
  update id values = p.target_update id values

  unfoldable pub delete : Text → Action D MonitorTarget
  delete id = p.target_delete id
