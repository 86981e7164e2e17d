-- ===== src/Providers/Sending.antt =====
-- What the providers of notifications/providers/ send, and which provider the factory gives.
mod Tests
use social_monitor.Prelude.{
  ℕ, ◌≤◌, ◌≡◌, refl, Text, text, Bool, true, false, not, truthy, or_null, ◌++◌, List, [], ◌∷◌,
  Option, none, some, arith, length, if◌then◌else◌, ◌⊎◌, inl, inr, ◌||◌, ◌∙◌, min,
}
use social_monitor.Core.{Result, Exception, ok, err, Action, http, bad_request}
use social_monitor.Schema.{
  NotificationChannelType, telegram, wechat, qq, same_channel_type, ChannelConfig,
}
use social_monitor.Format.{NotificationPayload, build_forward_text}
use social_monitor.Format.Shape.{length-build_forward_text}
use social_monitor.Net.{Network, Io, Request}
use social_monitor.Qq.Client.{QqClient}
use social_monitor.Providers.{
  NotificationProvider, register, lookup_provider, get_provider, factory, send_telegram,
  send_wechat, send_qq, parse_telegram_config, send_request, telegram_max_length, qq_max_length,
  invalid_channel, telegram_config_message,
}

-- Registering a provider changes the map at its type alone.
pub lookup_provider-register :
    {S : Type 0} (p : NotificationProvider S) (ps : List (NotificationProvider S))
    (t : NotificationChannelType)
    → lookup_provider t (register p ps)
      ≡ (if same_channel_type p.type t then some p else lookup_provider t ps)
lookup_provider-register p [] t = refl
lookup_provider-register p (q ∷ ps) t = ground (arith, lookup_provider-register p ps t)

-- The provider of each type.
abbrev pub provider_of :
    {N : Type 0} → Network N → QqClient → NotificationChannelType → NotificationProvider (Io N)
provider_of w client telegram = record { type = telegram; send = send_telegram w client }
provider_of w client wechat = record { type = wechat; send = send_wechat w client }
provider_of w client qq = record { type = qq; send = send_qq w client }

module _ {N : Type 0} (w : Network N) (client : QqClient) where
  -- The factory has a provider for every type of channel, the one that serves it, and so never
  -- throws UNSUPPORTED_CHANNEL_TYPE.
  pub get_provider-factory :
      (t : NotificationChannelType)
      → (get_provider (factory w client) t ≡ ok (provider_of w client t))
        × ((provider_of w client t).type ≡ t)
  unfolding get_provider factory
  get_provider-factory telegram = (refl, refl)
  get_provider-factory wechat = (refl, refl)
  get_provider-factory qq = (refl, refl)

  -- A Telegram channel without a bot token or a chat id is refused, and nothing is sent.
  pub send_telegram_invalid :
      (cfg : ChannelConfig) (p : NotificationPayload) (io : Io N)
      → (not (truthy cfg.bot_token) || not (truthy cfg.chat_id)) ≡ true
      → send_telegram w client cfg p io ≡ (err (invalid_channel telegram_config_message), io)
  unfolding send_telegram
  send_telegram_invalid cfg p io h = rw h

  -- With both, one request is made, and its text fits the limit of 4096 code units.
  pub send_telegram_request :
      (cfg : ChannelConfig) (p : NotificationPayload) (io : Io N)
      → (not (truthy cfg.bot_token) || not (truthy cfg.chat_id)) ≡ false
      → ((send_telegram w client cfg p io).1.requests
          ≡ io.requests
            ++ (send_request
                  (or_null cfg.bot_token [])
                  (or_null cfg.chat_id [])
                  (build_forward_text p telegram_max_length)
                ∷ []))
        × (length (build_forward_text p telegram_max_length) ≤ telegram_max_length)
  unfolding send_telegram
  send_telegram_request cfg p io h =
      (ground arith, omega (arith, length-build_forward_text p telegram_max_length (omega arith)))
