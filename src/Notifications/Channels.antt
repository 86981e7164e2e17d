-- ===== src/Notifications/Channels.antt =====
-- The channels of notifications/notification.service.ts: `validateConfig`, and the operations on
-- channels.
pub mod Config
use social_monitor.Prelude.{
  Text, text, ◌++◌, trim, truthy, Bool, true, not, ◌||◌, List, map, Option, none, some,
  if◌then◌else◌,
}
use social_monitor.Core.{
  Exception, http, not_found, Result, ok, err, Action, ◌>>=◌, ◌>>◌, continue, return, or_throw,
  result, ApiSuccessResponse, api_data,
}
use social_monitor.Schema.{NotificationChannelType, ChannelConfig, NotificationChannel}
use social_monitor.Schema
use social_monitor.Database.{Prisma, ChannelWhere, ChannelPatch, created_at_desc}
use social_monitor.Net.{Io}
use social_monitor.World.{Services, World, on_db, on_io, in_db, in_io}
use social_monitor.Format.{NotificationPayload}
use social_monitor.Providers.{
  NotificationProvider, get_provider, invalid_channel, telegram_config_message, qq_config_message,
}
use social_monitor.Notifications.Repository.{
  find_channels, find_channel_by_id, create_channel, update_channel, delete_channel,
}

pub record ChannelQuery : Type 0 where
  pub type : Option NotificationChannelType
  pub enabled : Option Bool

pub record CreateChannel : Type 0 where
  pub name : Text
  pub type : NotificationChannelType
  pub config : ChannelConfig

pub record UpdateChannel : Type 0 where
  pub name : Option Text
  pub enabled : Option Bool
  pub config : Option ChannelConfig

-- The `config` of the code's DTO, `{ configured: boolean }`, is the field `configured`.
pub record ChannelDto : Type 0 where
  pub id : Text
  pub name : Text
  pub type : NotificationChannelType
  pub enabled : Bool
  pub configured : Bool

unfoldable pub to_channel_dto : NotificationChannel → ChannelDto
to_channel_dto c = record {
  id = c.id;
  name = c.name;
  type = c.type;
  enabled = c.enabled;
  configured = true;
}

abbrev pub channel_not_found : Text → Exception
channel_not_found id =
    http not_found 404 (text "Notification channel not found: " ++ id) (text "CHANNEL_NOT_FOUND")

abbrev pub wechat_config_message : Text
wechat_config_message = text "WECHAT channel requires config.webhookUrl"

-- A member that is no string counts as absent; the source accepts any that is truthy.
unfoldable pub validate_config : NotificationChannelType → ChannelConfig → Result (Unit {0})
validate_config Schema.NotificationChannelType.telegram config =
    if not (truthy config.bot_token) || not (truthy config.chat_id)
    then err (invalid_channel telegram_config_message)
    else ok tt
validate_config Schema.NotificationChannelType.wechat config =
    if not (truthy config.webhook_url) then err (invalid_channel wechat_config_message) else ok tt
validate_config Schema.NotificationChannelType.qq config =
    if not (truthy config.group_openid) then err (invalid_channel qq_config_message) else ok tt

-- `if (dto.config) this.validateConfig(type, dto.config)`
abbrev pub validate_given : NotificationChannelType → Option ChannelConfig → Result (Unit {0})
validate_given type none = ok tt
validate_given type (some config) = validate_config type config

abbrev trimmed_name : Option Text → Option Text
trimmed_name none = none
trimmed_name (some s) = some (trim s)

unfoldable pub channel_patch : UpdateChannel → ChannelPatch
unfolding trim
channel_patch dto = record {
  name = trimmed_name dto.name;
  enabled = dto.enabled;
  config = dto.config;
}

abbrev pub test_payload : NotificationPayload
test_payload = record {
  source_label = text "TG群组";
  target_name = text "Social Monitor";
  author = text "测试用户";
  content = text "Social Monitor 测试消息";
  url = none;
}

module _ {D : Type 0} (p : Prisma D) where
  unfoldable pub list_channels : ChannelQuery → Action D (ApiSuccessResponse (List ChannelDto))
  unfolding find_channels
  list_channels q = do
    channels ← find_channels p (record {
      filter = record { type = q.type; enabled = q.enabled };
      order_by = created_at_desc;
      skip = 0;
      take = none;
    })
    return (api_data (map to_channel_dto channels))

  unfoldable pub create_channel_of : CreateChannel → Action D (ApiSuccessResponse ChannelDto)
  unfolding create_channel trim
  create_channel_of dto = do
    _ ← result (validate_config dto.type dto.config)
    created ←
        create_channel p (record { name = trim dto.name; type = dto.type; config = dto.config })
    return (api_data (to_channel_dto created))

  unfoldable pub ensure_channel_exists : Text → Action D NotificationChannel
  unfolding find_channel_by_id
  ensure_channel_exists id = do
    found ← find_channel_by_id p id
    or_throw (channel_not_found id) found

  unfoldable pub get_channel : Text → Action D (ApiSuccessResponse ChannelDto)
  unfolding find_channel_by_id
  get_channel id = do
    found ← find_channel_by_id p id
    c ← or_throw (channel_not_found id) found
    return (api_data (to_channel_dto c))

  unfoldable pub update_channel_of : Text → UpdateChannel → Action D (ApiSuccessResponse ChannelDto)
  unfolding ensure_channel_exists update_channel channel_patch
  update_channel_of id dto = do
    current ← ensure_channel_exists id
    _ ← result (validate_given current.type dto.config)
    updated ← update_channel p id (channel_patch dto)
    return (api_data (to_channel_dto updated))

  unfoldable pub remove_channel : Text → Action D (ApiSuccessResponse Bool)
  unfolding ensure_channel_exists delete_channel
  remove_channel id = do
    _ ← ensure_channel_exists id
    _ ← delete_channel p id
    return (api_data true)

module _ {D N R : Type 0} (sv : Services D N R)
    (providers : List (NotificationProvider (Io N))) where
  -- The answer is `{ success: true }`.
  unfoldable pub test_channel : Text → Action (World D N R) (ApiSuccessResponse Bool)
  unfolding find_channel_by_id get_provider
  test_channel id = do
    found ← on_db (find_channel_by_id sv.prisma id)
    c ← or_throw (channel_not_found id) found
    provider ← result (get_provider providers c.type)
    on_io (provider.send c.config test_payload)
    return (api_data true)
