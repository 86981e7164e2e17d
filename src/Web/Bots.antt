-- ===== src/Web/Bots.antt =====
-- The sections of apps/web/app/settings/page.tsx for the channels of the Telegram bot and of the QQ
-- bot, which differ in their inputs. Each handler is cut at its awaits; `waiting` is the call that
-- a handler waits for.
mod Creating
use social_monitor.Prelude.{
  Text, text, nonempty, Bool, true, false, not, ◌&&◌, List, [], ◌∷◌, ◌++◌, Option, none, some,
  if◌then◌else◌,
}
use social_monitor.Core.{Exception, Result, ok, err, message_of}
use social_monitor.Schema.{NotificationChannelType, ChannelConfig}
use social_monitor.Schema
use social_monitor.Notifications.Channels.{CreateChannel, ChannelDto}

pub data BotKind : Type 0 where
  telegram_bot qq_bot : BotKind

abbrev pub channel_type : BotKind → NotificationChannelType
channel_type telegram_bot = Schema.NotificationChannelType.telegram
channel_type qq_bot = Schema.NotificationChannelType.qq

-- The inputs; a section has those of its kind.
pub record BotForm : Type 0 where
  pub name : Text
  pub bot_token : Text
  pub chat_id : Text
  pub group_openid : Text

abbrev pub empty_form : BotForm
empty_form = record { name = []; bot_token = []; chat_id = []; group_openid = [] }

pub data BotCall : Type 0 where
  get_channels : NotificationChannelType → BotCall
  post_channel : CreateChannel → BotCall
  post_test : (id : Text) → BotCall
  delete_call : (id : Text) → BotCall
  patch_enabled : (id : Text) (enabled : Bool) → BotCall

pub data BotWaiting : Type 0 where
  creating testing changing loading_channels : BotWaiting

pub record BotSection : Type 0 where
  pub channels : List ChannelDto
  pub form : BotForm
  pub busy : Bool
  pub message : Option Text
  pub waiting : Option BotWaiting
  pub calls : List BotCall

abbrev pub bot_config : BotKind → BotForm → ChannelConfig
bot_config telegram_bot form = record {
  bot_token = some form.bot_token;
  chat_id = some form.chat_id;
  webhook_url = none;
  group_openid = none;
}
bot_config qq_bot form = record {
  bot_token = none;
  chat_id = none;
  webhook_url = none;
  group_openid = some form.group_openid;
}

abbrev pub create_body : BotKind → BotForm → CreateChannel
create_body kind form = record {
  name = form.name;
  type = channel_type kind;
  config = bot_config kind form;
}

-- The inputs without which the button is disabled.
abbrev pub is_filled : BotKind → BotForm → Bool
is_filled telegram_bot form = nonempty form.name && nonempty form.bot_token && nonempty form.chat_id
is_filled qq_bot form = nonempty form.name && nonempty form.group_openid

-- `setBusy(true); setMessage(null)`, and the call that is awaited.
abbrev pub begin : BotWaiting → BotCall → BotSection → BotSection
begin w call s = record s {
  busy = true;
  message = none;
  waiting = some w;
  calls = s.calls ++ (call ∷ []);
}

-- The buttons are disabled while the section is busy.
abbrev pub press : Bool → BotWaiting → BotCall → BotSection → BotSection
press enabled w call s = if enabled && not s.busy then begin w call s else s

abbrev pub finish : BotSection → BotSection
finish s = record s { busy = false; waiting = none }

abbrev pub show_error : Exception → BotSection → BotSection
show_error e s = record s { message = some (message_of e) }

unfoldable pub load_channels : Result (List ChannelDto) → BotSection → BotSection
load_channels (ok channels) s = record s { channels = channels }
load_channels (err e) s = show_error e s

-- `await load()` in a handler.
abbrev pub await_channels : BotKind → BotSection → BotSection
await_channels kind s = record s {
  waiting = some loading_channels;
  calls = s.calls ++ (get_channels (channel_type kind) ∷ []);
}

unfoldable pub press_create : BotKind → BotSection → BotSection
press_create kind s =
    press (is_filled kind s.form) creating (post_channel (create_body kind s.form)) s

unfoldable pub create_answered : BotKind → Result (Unit {0}) → BotSection → BotSection
create_answered kind (ok u) s = await_channels kind (record s { form = empty_form })
create_answered kind (err e) s = finish (show_error e s)

unfoldable pub press_test : Text → BotSection → BotSection
press_test id s = press true testing (post_test id) s

unfoldable pub test_answered : Result (Unit {0}) → BotSection → BotSection
test_answered (ok u) s = finish (record s { message = some (text "测试消息已发送") })
test_answered (err e) s = finish (show_error e s)

-- With the user's answer to the question.
unfoldable pub press_remove : (confirmed : Bool) → Text → BotSection → BotSection
press_remove confirmed id s = press confirmed changing (delete_call id) s

unfoldable pub press_toggle : Text → Bool → BotSection → BotSection
press_toggle id enabled s = press true changing (patch_enabled id enabled) s

-- The answer to a removal or a change.
unfoldable pub change_answered : BotKind → Result (Unit {0}) → BotSection → BotSection
change_answered kind (ok u) s = await_channels kind s
change_answered kind (err e) s = finish (show_error e s)

-- The end of a handler that has loaded the channels.
unfoldable pub channels_answered : Result (List ChannelDto) → BotSection → BotSection
unfolding load_channels
channels_answered r s = finish (load_channels r s)
