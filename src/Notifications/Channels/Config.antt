-- ===== src/Notifications/Channels/Config.antt =====
-- Configurations of channels in notifications/notification.service.ts: what is let in is what the
-- providers take, and none is given out.
mod Tests
use social_monitor.Prelude.{
  ◌≡◌, refl, ap, Text, text, truthy, Bool, not, ◌||◌, List, map, Option, none, some, arith,
  if◌then◌else◌, [], ◌∷◌,
}
use social_monitor.Core.{Exception, Result, ok, err, Action, api_data}
use social_monitor.Schema.{NotificationChannelType, ChannelConfig, NotificationChannel}
use social_monitor.Schema
use social_monitor.Database.{Prisma, FindMany, ChannelWhere, created_at_desc, ChannelPatch}
use social_monitor.Providers.{parse_telegram_config, parse_qq_config}
use social_monitor.Notifications.Channels.{
  ChannelQuery, ChannelDto, CreateChannel, UpdateChannel, to_channel_dto, validate_config,
  validate_given, list_channels, create_channel_of, update_channel_of, channel_not_found,
  ensure_channel_exists,
}

abbrev pub forget : {A : Type 0} → Result A → Result (Unit {0})
forget (ok a) = ok tt
forget (err e) = err e

-- For a Telegram or a QQ channel the service refuses a configuration exactly when the provider
-- would refuse it before sending, and with the same exception.
pub validate_config-parse :
    {S : Type 0} (config : ChannelConfig) (s : S)
    → (validate_config Schema.NotificationChannelType.telegram config
        ≡ forget (parse_telegram_config config s).0)
      × (validate_config Schema.NotificationChannelType.qq config
          ≡ forget (parse_qq_config config s).0)
unfolding validate_config parse_telegram_config parse_qq_config
validate_config-parse config s = (ground arith, ground arith)

-- The query that lists the channels.
abbrev pub listing : ChannelQuery → FindMany ChannelWhere
listing q = record {
  filter = record { type = q.type; enabled = q.enabled };
  order_by = created_at_desc;
  skip = 0;
  take = none;
}

abbrev pub reconfigured :
    (NotificationChannel → ChannelConfig) → NotificationChannel → NotificationChannel
reconfigured f c = record c { config = f c }

dtos_same :
    (f : NotificationChannel → ChannelConfig) (cs : List NotificationChannel)
    → map to_channel_dto (map (reconfigured f) cs) ≡ map to_channel_dto cs
unfolding to_channel_dto
dtos_same f [] = refl
dtos_same f (c ∷ cs) = ap (λ r. to_channel_dto c ∷ r) (dtos_same f cs)

-- No configuration leaks through the list: two databases whose channels differ in their
-- configurations only, in whatever way, give the same answer.
pub list_channels_secret :
    {D : Type 0} (p p' : Prisma D) (q : ChannelQuery) (d : D) (cs : List NotificationChannel)
    (f : NotificationChannel → ChannelConfig)
    → p.channel_find_many (listing q) d ≡ (ok cs, d)
    → p'.channel_find_many (listing q) d ≡ (ok (map (reconfigured f) cs), d)
    → list_channels p q d ≡ list_channels p' q d
unfolding list_channels
list_channels_secret p p' q d cs f h h' = rw (h, h', dtos_same f cs) refl
