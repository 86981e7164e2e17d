-- ===== src/Database.antt =====
-- The database client as the repositories use it. Its operations are no part of the program: they
-- are the fields of `Prisma`, over a state `D` of the database. The queries are the arguments that
-- the program builds.
use social_monitor.Prelude.{ℕ, Text, Bool, List, Option}
use social_monitor.Core.{Action}
use social_monitor.Schema.{
  MonitorType, MessageSource, NotificationChannelType, NotificationStatus, MonitorTarget, Message,
  ChannelConfig, NotificationChannel, NotificationTask, TelegramAccount,
}

-- `Prisma.MessageGetPayload<{ include: { target: true } }>`
pub record MessageWithTarget : Type 0 where
  pub message : Message
  pub target : MonitorTarget

-- `Prisma.NotificationTaskGetPayload<{ include: { channel: true } }>`
pub record NotificationTaskWithChannel : Type 0 where
  pub task : NotificationTask
  pub channel : NotificationChannel

-- The task with its message, the message's target, and its channel.
pub record NotificationTaskWithRelations : Type 0 where
  pub task : NotificationTask
  pub message : Message
  pub target : MonitorTarget
  pub channel : NotificationChannel

-- `{ gte?, lte? }` on a date.
pub record DateRange : Type 0 where
  pub gte : Option ℕ
  pub lte : Option ℕ

pub data TargetField : Type 0 where
  name username external_id : TargetField

pub data MessageField : Type 0 where
  content author_username author_name author_external_id : MessageField

-- A where-input: a member that is `none` is absent; `or` holds the alternatives
-- `{ field: { contains, mode: "insensitive" } }`, and no alternatives mean that `OR` is absent.
pub record TargetWhere : Type 0 where
  pub type : Option MonitorType
  pub enabled : Option Bool
  pub or : List (TargetField × Text)

pub record MessageWhere : Type 0 where
  pub source : Option MessageSource
  pub target_id : Option Text
  pub or : List (MessageField × Text)
  pub published_at : Option DateRange

pub record ChannelWhere : Type 0 where
  pub type : Option NotificationChannelType
  pub enabled : Option Bool

pub record TaskWhere : Type 0 where
  pub status : Option NotificationStatus
  pub channel_id : Option Text
  pub message_id : Option Text
  pub created_at : Option DateRange
  pub sent_at : Option DateRange

pub data OrderBy : Type 0 where
  unordered created_at_desc created_at_asc published_at_desc : OrderBy

pub record FindMany (W : Type 0) : Type 0 where
  pub filter : W
  pub order_by : OrderBy
  pub skip : ℕ
  pub take : Option ℕ

pub data TargetKey : Type 0 where
  by_id : Text → TargetKey
  by_type_external_id : MonitorType → Text → TargetKey

pub data MessageKey : Type 0 where
  by_id : Text → MessageKey
  by_source_external_id : MessageSource → Text → MessageKey

-- `{ type: { in }, externalId, enabled }`
pub record TargetFirst : Type 0 where
  pub type_in : List MonitorType
  pub external_id : Text
  pub enabled : Bool

pub record TargetData : Type 0 where
  pub type : MonitorType
  pub name : Text
  pub username : Option Text
  pub external_id : Text

-- Update inputs: a member that is `none` is not written.
pub record TargetPatch : Type 0 where
  pub name : Option Text
  pub username : Option Text
  pub external_id : Option Text
  pub enabled : Option Bool
  pub last_message_at : Option ℕ

pub record MessageData : Type 0 where
  pub source : MessageSource
  pub external_id : Text
  pub target_id : Text
  pub author_external_id : Option Text
  pub author_username : Option Text
  pub author_name : Option Text
  pub content : Text
  pub url : Option Text
  pub published_at : ℕ

pub record ChannelData : Type 0 where
  pub name : Text
  pub type : NotificationChannelType
  pub config : ChannelConfig

pub record ChannelPatch : Type 0 where
  pub name : Option Text
  pub enabled : Option Bool
  pub config : Option ChannelConfig

pub record TaskPatch : Type 0 where
  pub status : NotificationStatus
  pub increment : ℕ
  pub sent_at : Option ℕ
  pub last_error : Option (Option Text)

pub record CreatedTask : Type 0 where
  pub id : Text
  pub channel_id : Text

pub record AccountData : Type 0 where
  pub phone : Text
  pub session : Text
  pub connected : Bool

pub record AccountPatch : Type 0 where
  pub session : Text
  pub connected : Bool

pub record Prisma (D : Type 0) : Type 0 where
  pub target_find_many : FindMany TargetWhere → Action D (List MonitorTarget)
  pub target_count : TargetWhere → Action D ℕ
  pub target_find_unique : TargetKey → Action D (Option MonitorTarget)
  pub target_find_first : TargetFirst → Action D (Option MonitorTarget)
  pub target_create : TargetData → Action D MonitorTarget
  pub target_update : Text → TargetPatch → Action D MonitorTarget
  pub target_delete : Text → Action D MonitorTarget
  pub message_find_many : FindMany MessageWhere → Action D (List MessageWithTarget)
  pub message_count : MessageWhere → Action D ℕ
  pub message_find_unique : MessageKey → Action D (Option MessageWithTarget)
  pub message_create : MessageData → Action D MessageWithTarget
  pub channel_find_many : FindMany ChannelWhere → Action D (List NotificationChannel)
  pub channel_find_unique : Text → Action D (Option NotificationChannel)
  pub channel_create : ChannelData → Action D NotificationChannel
  pub channel_update : Text → ChannelPatch → Action D NotificationChannel
  pub channel_delete : Text → Action D NotificationChannel
  pub task_find_many : FindMany TaskWhere → Action D (List NotificationTaskWithRelations)
  pub task_count : TaskWhere → Action D ℕ
  pub task_find_unique : Text → Action D (Option NotificationTaskWithRelations)
  pub task_update : Text → TaskPatch → Action D NotificationTask
  -- `createManyAndReturn({ data, skipDuplicates: true, select: { id, channelId } })`
  pub task_create_many : List (Text × Text) → Action D (List CreatedTask)
  pub account_find_first : Text → Action D (Option TelegramAccount)
  -- `where: { connected }`
  pub account_find_many : Option Bool → Action D (List TelegramAccount)
  pub account_create : AccountData → Action D (Unit {0})
  pub account_update : Text → AccountPatch → Action D (Unit {0})
  pub account_delete : Text → Action D (Unit {0})
  -- `$queryRaw`SELECT 1``
  pub query_raw : Action D (Unit {0})
