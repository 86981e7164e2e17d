-- ===== src/Monitors/Normalize.antt =====
-- Input checks of monitors/monitor.service.ts: `normalizeCreate` and `hasRequiredParams`.
pub mod Required
use social_monitor.Prelude.{
  [], Text, text, ◌++◌, trim, nonempty, nonempty?, truthy, or_null, Bool, true, false, not, ◌&&◌,
  ◌||◌, Option, none, some, if◌then◌else◌,
}
use social_monitor.Core.{Exception, bad_request, http, Result, ok, err, or_default}
use social_monitor.Schema.{
  MonitorType, x_user, tg_channel, tg_group, MonitorTarget, monitor_type_name,
}
use social_monitor.Database.{TargetData}

pub record CreateMonitor : Type 0 where
  pub type : MonitorType
  pub name : Text
  pub username : Option Text
  pub external_id : Option Text

-- `dto.username?.trim() || null`
abbrev pub trimmed_or_null : Option Text → Option Text
trimmed_or_null none = none
trimmed_or_null (some s) = nonempty? (trim s)

-- `dto.externalId?.trim()`
abbrev pub trimmed : Option Text → Option Text
trimmed none = none
trimmed (some s) = some (trim s)

abbrev pub invalid_monitor : Text → Exception
invalid_monitor message = http bad_request 400 message (text "INVALID_MONITOR")

abbrev pub x_user_message : Text
x_user_message = text "X_USER requires username or externalId"

abbrev pub chat_message : MonitorType → Text
chat_message type = monitor_type_name type ++ text " requires externalId (chat id)"

abbrev normalized : MonitorType → Text → Option Text → Text → Result TargetData
normalized type name username external_id =
    ok (record { type = type; name = name; username = username; external_id = external_id })

-- An X user: the username stands in for a missing external id.
abbrev for_x_user : Text → Option Text → Option Text → Result TargetData
for_x_user name username external_id =
    if not (truthy username) && not (truthy external_id)
    then err (invalid_monitor x_user_message)
    else if not (truthy external_id)
    then normalized x_user name username (or_default username [])
    else normalized x_user name username (or_default external_id [])

abbrev for_chat : MonitorType → Text → Option Text → Option Text → Result TargetData
for_chat type name username external_id =
    if not (truthy external_id)
    then err (invalid_monitor (chat_message type))
    else normalized type name username (or_default external_id [])

abbrev normalize_as : MonitorType → Text → Option Text → Option Text → Result TargetData
normalize_as x_user = for_x_user
normalize_as tg_channel = for_chat tg_channel
normalize_as tg_group = for_chat tg_group

unfoldable pub normalize_create : CreateMonitor → Result TargetData
unfolding trim
normalize_create dto =
    normalize_as dto.type (trim dto.name) (trimmed_or_null dto.username) (trimmed dto.external_id)

abbrev required_params : MonitorType → Option Text → Text → Bool
required_params x_user username external_id = truthy username || nonempty external_id
required_params tg_channel username external_id = nonempty external_id
required_params tg_group username external_id = nonempty external_id

unfoldable pub has_required_params : MonitorTarget → Bool
has_required_params m = required_params m.type m.username m.external_id
