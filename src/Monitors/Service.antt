-- ===== src/Monitors/Service.antt =====
-- The operations of monitors/monitor.service.ts.
pub mod Laws
mod Spec
mod Refinement
pub mod Table
pub mod Lifecycle
pub mod Switching
use social_monitor.Prelude.{
  ℕ, ◌-◌, ◌*◌, Text, text, truthy, or_null, Bool, true, List, [], ◌∷◌, ◌++◌, map, Option, none,
  some, if◌then◌else◌,
}
use social_monitor.Core.{
  Exception, http, not_found, conflict, Action, ◌>>=◌, ◌>>◌, continue, return, throw, or_throw,
  result, ApiSuccessResponse, ApiPaginatedResponse, api_data, api_paginated,
}
use social_monitor.Schema.{MonitorType, MonitorTarget}
use social_monitor.Database.{
  Prisma, TargetWhere, TargetField, name, username, external_id, TargetData, TargetPatch,
  created_at_desc,
}
use social_monitor.World.{Services, World, on_db, emit, monitor_status_changed}
use social_monitor.Paging.{page_or_first, size_or_default}
use social_monitor.Monitors.Normalize.{CreateMonitor, normalize_create, has_required_params}
use social_monitor.Monitors.Repository.{
  find_many, count, find_unique, find_unique_by_type_external_id, update, delete,
}
use social_monitor.Monitors.Repository

pub record MonitorDto : Type 0 where
  pub id : Text
  pub type : MonitorType
  pub name : Text
  pub username : Option Text
  pub external_id : Text
  pub enabled : Bool
  pub last_message_at : Option ℕ

pub record MonitorQuery : Type 0 where
  pub page : Option ℕ
  pub page_size : Option ℕ
  pub type : Option MonitorType
  pub enabled : Option Bool
  pub keyword : Option Text

-- A member that is absent is `none`.
pub record UpdateMonitor : Type 0 where
  pub name : Option Text
  pub username : Option Text
  pub external_id : Option Text
  pub enabled : Option Bool

pub record MonitorCheck : Type 0 where
  pub valid : Bool
  pub name : Text

unfoldable pub to_dto : MonitorTarget → MonitorDto
to_dto m = record {
  id = m.id;
  type = m.type;
  name = m.name;
  username = m.username;
  external_id = m.external_id;
  enabled = m.enabled;
  last_message_at = m.last_message_at;
}

unfoldable pub monitor_not_found : Text → Exception
monitor_not_found id =
    http not_found 404 (text "Monitor target not found: " ++ id) (text "MONITOR_NOT_FOUND")

abbrev pub monitor_exists : Exception
monitor_exists = http conflict 409 (text "Monitor target already exists") (text "MONITOR_EXISTS")

abbrev keyword_in : Text → List (TargetField × Text)
keyword_in k = (name, k) ∷ (username, k) ∷ (external_id, k) ∷ []

unfoldable pub monitor_where : MonitorQuery → TargetWhere
monitor_where q = record {
  type = q.type;
  enabled = q.enabled;
  or = if truthy q.keyword then keyword_in (or_null q.keyword []) else [];
}

-- The members of an update that are given. A `null`, which the validation lets through and the source
-- writes, counts as absent.
abbrev pub patch_of : UpdateMonitor → TargetPatch
patch_of dto = record {
  name = dto.name;
  username = dto.username;
  external_id = dto.external_id;
  enabled = dto.enabled;
  last_message_at = none;
}

abbrev pub enabled_patch : Bool → TargetPatch
enabled_patch b = record {
  name = none;
  username = none;
  external_id = none;
  enabled = some b;
  last_message_at = none;
}

module _ {D : Type 0} (p : Prisma D) where
  unfoldable pub list : MonitorQuery → Action D (ApiPaginatedResponse MonitorDto)
  unfolding find_many count
  list q = do
    let page = page_or_first q.page
    let page_size = size_or_default q.page_size
    items ← find_many p (record {
      filter = monitor_where q;
      order_by = created_at_desc;
      skip = (page - 1) * page_size;
      take = some page_size;
    })
    total ← count p (monitor_where q)
    return (
        api_paginated (map to_dto items)
          (record { page = page; page_size = page_size; total = total }))

  abbrev refuse_existing : Option MonitorTarget → Action D (Unit {0})
  refuse_existing none = return tt
  refuse_existing (some m) = throw monitor_exists

  unfoldable pub create : CreateMonitor → Action D (ApiSuccessResponse MonitorDto)
  unfolding find_unique_by_type_external_id Repository.create
  create dto = do
    normalized ← result (normalize_create dto)
    existing ← find_unique_by_type_external_id p normalized.type normalized.external_id
    _ ← refuse_existing existing
    created ← Repository.create p normalized
    return (api_data (to_dto created))

  -- `ensureExists`
  unfoldable pub ensure_exists : Text → Action D MonitorTarget
  unfolding find_unique
  ensure_exists id = do found ← find_unique p id; or_throw (monitor_not_found id) found

  unfoldable pub find_one : Text → Action D (ApiSuccessResponse MonitorDto)
  unfolding find_unique
  find_one id = do
    found ← find_unique p id
    m ← or_throw (monitor_not_found id) found
    return (api_data (to_dto m))

  unfoldable pub update_monitor : Text → UpdateMonitor → Action D (ApiSuccessResponse MonitorDto)
  unfolding update ensure_exists
  update_monitor id dto = do
    _ ← ensure_exists id
    updated ← update p id (patch_of dto)
    return (api_data (to_dto updated))

  unfoldable pub remove : Text → Action D (ApiSuccessResponse Bool)
  unfolding delete ensure_exists
  remove id = do _ ← ensure_exists id; _ ← delete p id; return (api_data true)

  unfoldable pub check : Text → Action D (ApiSuccessResponse MonitorCheck)
  unfolding find_unique
  check id = do
    found ← find_unique p id
    m ← or_throw (monitor_not_found id) found
    return (api_data (record { valid = has_required_params m; name = m.name }))

module _ {D N R : Type 0} (sv : Services D N R) where
  unfoldable pub set_enabled : Text → Bool → Action (World D N R) (ApiSuccessResponse MonitorDto)
  unfolding update ensure_exists
  set_enabled id enabled = do
    _ ← on_db (ensure_exists sv.prisma id)
    updated ← on_db (update sv.prisma id (enabled_patch enabled))
    _ ← emit sv (monitor_status_changed id enabled updated.type)
    return (api_data (to_dto updated))
