-- ===== src/Monitors/Normalize/Required.antt =====
-- What `normalizeCreate` of monitors/monitor.service.ts lets through.
mod Tests
use social_monitor.Prelude.{
  ◌≡◌, refl, Text, text, trim, nonempty, nonempty?, truthy, Bool, true, false, not, ◌&&◌, ◌||◌, ◌↔◌,
  List, [], ◌∷◌, Option, none, some, arith, if◌then◌else◌,
}
use social_monitor.Core.{Result, ok, err, Exception}
use social_monitor.Schema.{MonitorType, x_user, tg_channel, tg_group, MonitorTarget}
use social_monitor.Database.{TargetData}
use social_monitor.Monitors.Normalize.{
  CreateMonitor, normalize_create, has_required_params, trimmed_or_null, trimmed, invalid_monitor,
}

-- The row that an insert of normalized data makes.
abbrev pub row_of : Text → TargetData → MonitorTarget
row_of id v = record {
  id = id;
  type = v.type;
  name = v.name;
  username = v.username;
  external_id = v.external_id;
  enabled = true;
  last_message_at = none;
}

abbrev pub wanted : MonitorType → Bool → Bool → Bool
wanted x_user u e = u || e
wanted tg_channel u e = e
wanted tg_group u e = e

-- What the input must have: for an X user a username or an external id, for the others an external
-- id, each more than white space.
abbrev pub names_a_target : CreateMonitor → Bool
names_a_target dto =
    wanted dto.type (truthy (trimmed dto.username)) (truthy (trimmed dto.external_id))

abbrev pub is_let_through : Result TargetData → Bool
is_let_through (ok v) = true
is_let_through (err e) = false

-- Input is let through exactly where it names a target: an X user by a username or an external id,
-- another by an external id, each more than white space.
pub is_let_through-normalize_create :
    (dto : CreateMonitor) → is_let_through (normalize_create dto) ≡ names_a_target dto
unfolding normalize_create
is_let_through-normalize_create dto = ground arith

-- What is let through keeps its type and its trimmed name, has a non-empty external id, and passes
-- `check` once it is stored.
pub normalize_create-has_required_params :
    (dto : CreateMonitor) (v : TargetData) (id : Text)
    → normalize_create dto ≡ ok v
    → (v.type ≡ dto.type)
      × (v.name ≡ trim dto.name)
      × (v.username ≡ trimmed_or_null dto.username)
      × (nonempty v.external_id ≡ true)
      × (has_required_params (row_of id v) ≡ true)
unfolding normalize_create has_required_params
normalize_create-has_required_params dto v id h =
    (ground arith, ground arith, ground arith, ground arith, ground arith)
