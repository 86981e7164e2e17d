-- ===== src/Schema.antt =====
-- prisma/schema.prisma: the enums and the rows of the tables. A date is a number of milliseconds.
-- `createdAt` and `updatedAt` are kept where the program reads or orders by them; the cursor of a
-- target, which no code reads, is left out.
use social_monitor.Prelude.{ℕ, Text, text, Bool, true, false, Option}

pub data MonitorType : Type 0 where
  x_user tg_channel tg_group : MonitorType

pub data MessageSource : Type 0 where
  x telegram : MessageSource

pub data NotificationChannelType : Type 0 where
  telegram wechat qq : NotificationChannelType

pub data NotificationStatus : Type 0 where
  pending processing sent failed cancelled : NotificationStatus

-- The enums as the strings that they are in the code.
abbrev pub monitor_type_name : MonitorType → Text
monitor_type_name x_user = text "X_USER"
monitor_type_name tg_channel = text "TG_CHANNEL"
monitor_type_name tg_group = text "TG_GROUP"

abbrev pub channel_type_name : NotificationChannelType → Text
channel_type_name telegram = text "TELEGRAM"
channel_type_name wechat = text "WECHAT"
channel_type_name qq = text "QQ"

abbrev pub same_monitor_type : MonitorType → MonitorType → Bool
same_monitor_type x_user x_user = true
same_monitor_type tg_channel tg_channel = true
same_monitor_type tg_group tg_group = true
same_monitor_type _ _ = false

abbrev pub same_channel_type : NotificationChannelType → NotificationChannelType → Bool
same_channel_type telegram telegram = true
same_channel_type wechat wechat = true
same_channel_type qq qq = true
same_channel_type _ _ = false

pub record MonitorTarget : Type 0 where
  pub id : Text
  pub type : MonitorType
  pub name : Text
  pub username : Option Text
  pub external_id : Text
  pub enabled : Bool
  pub last_message_at : Option ℕ

pub record Message : Type 0 where
  pub id : Text
  pub source : MessageSource
  pub external_id : Text
  pub target_id : Text
  pub author_external_id : Option Text
  pub author_username : Option Text
  pub author_name : Option Text
  pub content : Text
  pub url : Option Text
  pub published_at : ℕ

-- A channel's JSON configuration, as far as the code reads it: the members that it names.
pub record ChannelConfig : Type 0 where
  pub bot_token : Option Text
  pub chat_id : Option Text
  pub webhook_url : Option Text
  pub group_openid : Option Text

pub record NotificationChannel : Type 0 where
  pub id : Text
  pub name : Text
  pub type : NotificationChannelType
  pub enabled : Bool
  pub config : ChannelConfig

pub record NotificationTask : Type 0 where
  pub id : Text
  pub message_id : Text
  pub channel_id : Text
  pub status : NotificationStatus
  pub attempts : ℕ
  pub last_error : Option Text
  pub sent_at : Option ℕ
  pub created_at : ℕ

pub record TelegramAccount : Type 0 where
  pub id : Text
  pub phone : Text
  pub session : Text
  pub connected : Bool
