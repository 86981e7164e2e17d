-- ===== src/Providers/Sending/Tests.antt =====
-- Runs of the providers.
use social_monitor.Prelude.{◌≡◌, refl, text, [], ◌∷◌, some, none}
use social_monitor.Core.{ok, err}
use social_monitor.Schema.{wechat, qq, ChannelConfig}
use social_monitor.Format.{NotificationPayload, build_forward_text}
use social_monitor.Fixtures.{scripted, io_of}
use social_monitor.Qq.Client.{QqClient}
use social_monitor.Providers.{
  register, lookup_provider, get_provider, factory, send_telegram, send_request,
  telegram_max_length, invalid_channel, telegram_config_message,
}
use social_monitor.Providers.Sending.{
  lookup_provider-register, provider_of, get_provider-factory, send_telegram_invalid,
  send_telegram_request,
}

abbrev bot : QqClient
bot = record { app_id = []; client_secret = []; token_url = text "u"; api_base = text "b" }

abbrev empty_config : ChannelConfig
empty_config = record { bot_token = none; chat_id = none; webhook_url = none; group_openid = none }

abbrev config : ChannelConfig
config = record empty_config { bot_token = some (text "T"); chat_id = some (text "9") }

abbrev note : NotificationPayload
note = record {
  source_label = text "X";
  target_name = text "n";
  author = [];
  content = text "c";
  url = none;
}

lookup_provider-register_run :
    lookup_provider wechat
      (register (provider_of scripted bot qq) (provider_of scripted bot wechat ∷ []))
    ≡ some (provider_of scripted bot wechat)
lookup_provider-register_run =
    lookup_provider-register (provider_of scripted bot qq) (provider_of scripted bot wechat ∷ [])
      wechat

get_provider-factory_run : get_provider (factory scripted bot) qq ≡ ok (provider_of scripted bot qq)
get_provider-factory_run = (get_provider-factory scripted bot qq).0

send_telegram_invalid_run :
    send_telegram scripted bot empty_config note (io_of [])
    ≡ (err (invalid_channel telegram_config_message), io_of [])
send_telegram_invalid_run = send_telegram_invalid scripted bot empty_config note (io_of []) refl

send_telegram_request_example :
    (send_telegram scripted bot config note (io_of [])).1.requests
    ≡ send_request (text "T") (text "9") (build_forward_text note telegram_max_length) ∷ []
send_telegram_request_example = (send_telegram_request scripted bot config note (io_of []) refl).0
