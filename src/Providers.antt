-- ===== src/Providers.antt =====
-- notifications/providers/ and notifications/notification-provider.factory.ts: how a notification
-- is sent over each type of channel. Logging is left out.
pub mod Sending
use social_monitor.Prelude.{
  ℕ, Text, text, ◌++◌, Bool, not, ◌&&◌, ◌||◌, List, [], ◌∷◌, Option, none, some, truthy, or_null,
  show, if◌then◌else◌,
}
use social_monitor.Core.{
  Exception, bad_request, service_unavailable, http, Result, ok, err, Action, ◌>>=◌, ◌>>◌, continue,
  return, throw, catch, rescue, require,
}
use social_monitor.Schema.{
  NotificationChannelType, telegram, wechat, qq, ChannelConfig, channel_type_name,
  same_channel_type,
}
use social_monitor.Format.{NotificationPayload, build_forward_text}
use social_monitor.Net.{Request, Response, is_ok, Network, Io, await_fetch, str}
use social_monitor.Qq.Client.{QqClient, send_group_message, json_headers}

abbrev pub invalid_channel : Text → Exception
invalid_channel message = http bad_request 400 message (text "INVALID_CHANNEL")

abbrev pub telegram_config_message : Text
telegram_config_message = text "TELEGRAM channel requires config.botToken and config.chatId"

abbrev pub qq_config_message : Text
qq_config_message = text "QQ channel requires config.groupOpenid"

abbrev pub unreachable : Exception
unreachable =
    http service_unavailable 502
      (text
        "无法连接 Telegram Bot API（api.telegram.org）：本机网络无法直连 Telegram，请通过代理运行或部署到可访问 Telegram 的服务器")
      (text "TELEGRAM_NETWORK_UNREACHABLE")

abbrev pub telegram_send_failed : Response → Exception
unfolding show
telegram_send_failed r =
    http service_unavailable 502
      (text "Telegram Bot API error (" ++ (show r.status ++ (text "): " ++ r.body_text)))
      (text "TELEGRAM_SEND_FAILED")

-- `parseConfig` of each provider.
unfoldable pub parse_telegram_config : {S : Type 0} → ChannelConfig → Action S (Text × Text)
parse_telegram_config cfg =
    if not (truthy cfg.bot_token) || not (truthy cfg.chat_id)
    then throw (invalid_channel telegram_config_message)
    else return (or_null cfg.bot_token [], or_null cfg.chat_id [])

unfoldable pub parse_qq_config : {S : Type 0} → ChannelConfig → Action S Text
parse_qq_config cfg =
    if not (truthy cfg.group_openid)
    then throw (invalid_channel qq_config_message)
    else return (or_null cfg.group_openid [])

abbrev pub telegram_max_length : ℕ
telegram_max_length = 4096

abbrev pub qq_max_length : ℕ
qq_max_length = 2000

abbrev pub send_request : Text → Text → Text → Request
send_request bot_token chat_id content = record {
  method = text "POST";
  url = text "https://api.telegram.org/bot" ++ (bot_token ++ text "/sendMessage");
  headers = json_headers;
  body = some ((text "chat_id", str chat_id) ∷ (text "text", str content) ∷ []);
  timeout = 10000;
}

-- A provider: the type of channel that it serves, and its `send`.
pub record NotificationProvider (S : Type 0) : Type 0 where
  pub type : NotificationChannelType
  pub send : ChannelConfig → NotificationPayload → Action S (Unit {0})

module _ {N : Type 0} (w : Network N) (client : QqClient) where
  unfoldable pub send_telegram : ChannelConfig → NotificationPayload → Action (Io N) (Unit {0})
  unfolding parse_telegram_config await_fetch
  send_telegram config payload = do
    (bot_token, chat_id) ← parse_telegram_config config
    let content = build_forward_text payload telegram_max_length
    r ← catch (await_fetch w (send_request bot_token chat_id content)) (λ _. throw unreachable)
    require (is_ok r) (telegram_send_failed r)

  -- A mock, which only logs.
  unfoldable pub send_wechat : ChannelConfig → NotificationPayload → Action (Io N) (Unit {0})
  send_wechat config payload = return tt

  unfoldable pub send_qq : ChannelConfig → NotificationPayload → Action (Io N) (Unit {0})
  unfolding parse_qq_config
  send_qq config payload = do
    group_openid ← parse_qq_config config
    send_group_message w client group_openid (build_forward_text payload qq_max_length)

abbrev pub unsupported : NotificationChannelType → Exception
unsupported type =
    http bad_request 400 (text "Unsupported notification channel type: " ++ channel_type_name type)
      (text "UNSUPPORTED_CHANNEL_TYPE")

-- The factory's map, from types to providers: a new provider of a type takes the old one's place.
module _ {S : Type 0} where
  abbrev pub register :
      NotificationProvider S → List (NotificationProvider S) → List (NotificationProvider S)
  register p [] = p ∷ []
  register p (q ∷ qs) =
      let rest = register p qs in if same_channel_type q.type p.type then p ∷ qs else q ∷ rest

  abbrev pub lookup_provider :
      NotificationChannelType → List (NotificationProvider S) → Option (NotificationProvider S)
  lookup_provider type [] = none
  lookup_provider type (q ∷ qs) =
      if same_channel_type q.type type then some q else lookup_provider type qs

  -- `factory.get`
  unfoldable pub get_provider :
      List (NotificationProvider S) → NotificationChannelType → Result (NotificationProvider S)
  get_provider providers type = elim (lookup_provider type providers) [
    | none ↦ err (unsupported type)
    | some p ↦ ok p
  ]

-- The constructor registers the three providers.
unfoldable pub factory : {N : Type 0} → Network N → QqClient → List (NotificationProvider (Io N))
unfolding send_telegram send_wechat send_qq
factory w client =
    register (record { type = qq; send = send_qq w client })
      (register (record { type = wechat; send = send_wechat w client })
        (register (record { type = telegram; send = send_telegram w client }) []))
