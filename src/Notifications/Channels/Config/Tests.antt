-- ===== src/Notifications/Channels/Config/Tests.antt =====
-- Configurations of channels at concrete input.
use social_monitor.Prelude.{◌≡◌, refl, text, true, List, [], ◌∷◌, map, none, some}
use social_monitor.Core.{ok}
use social_monitor.Schema.{ChannelConfig, NotificationChannel}
use social_monitor.Schema
use social_monitor.Database.{Prisma}
use social_monitor.Fixtures.{offline}
use social_monitor.Providers.{parse_telegram_config, parse_qq_config}
use social_monitor.Notifications.Channels.{ChannelQuery, validate_config, list_channels}
use social_monitor.Notifications.Channels.Config.{
  forget, validate_config-parse, list_channels_secret, reconfigured,
}

abbrev half_config : ChannelConfig
half_config = record {
  bot_token = some (text "T");
  chat_id = none;
  webhook_url = none;
  group_openid = none;
}

validate_config-parse_example :
    (validate_config Schema.NotificationChannelType.telegram half_config
      ≡ forget (parse_telegram_config half_config half_config).0)
    × (validate_config Schema.NotificationChannelType.qq half_config
        ≡ forget (parse_qq_config half_config half_config).0)
validate_config-parse_example = validate_config-parse half_config half_config

abbrev alerts : NotificationChannel
alerts = record {
  id = text "c1";
  name = text "alerts";
  type = Schema.NotificationChannelType.qq;
  enabled = true;
  config = half_config;
}

-- A database of these channels, which are the state.
abbrev channel_table : Prisma (List NotificationChannel)
channel_table = record (offline (List NotificationChannel)) {
  channel_find_many = λ args cs. (ok cs, cs);
  channel_find_unique = λ id cs. (ok (some alerts), cs);
}

abbrev other_config : NotificationChannel → ChannelConfig
other_config c = record half_config { group_openid = some (text "G") }

abbrev other_table : Prisma (List NotificationChannel)
other_table = record (offline (List NotificationChannel)) {
  channel_find_many = λ args cs. (ok (map (reconfigured other_config) cs), cs);
}

abbrev every : ChannelQuery
every = record { type = none; enabled = none }

list_channels_secret_example :
    list_channels channel_table every (alerts ∷ []) ≡ list_channels other_table every (alerts ∷ [])
list_channels_secret_example =
    list_channels_secret channel_table other_table every (alerts ∷ []) (alerts ∷ []) other_config
      refl refl
