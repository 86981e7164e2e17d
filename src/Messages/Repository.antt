-- ===== src/Messages/Repository.antt =====
-- messages/message.repository.ts: the queries of the message service and of the ingest endpoint.
use social_monitor.Prelude.{ℕ, Text, true, List, [], ◌∷◌, map, Option, none, some}
use social_monitor.Core.{Action, ◌>>=◌, return}
use social_monitor.Schema.{
  MonitorType, tg_channel, tg_group, MessageSource, MonitorTarget, NotificationChannel,
}
use social_monitor.Database.{
  Prisma, FindMany, MessageWhere, MessageWithTarget, MessageData, NotificationTaskWithChannel,
  NotificationTaskWithRelations, TaskWhere, ChannelWhere, CreatedTask, TargetPatch, unordered,
  created_at_asc,
}
use social_monitor.Database

abbrev pub no_patch : TargetPatch
no_patch = record {
  name = none;
  username = none;
  external_id = none;
  enabled = none;
  last_message_at = none;
}

-- `include: { channel: true }`
abbrev pub with_channel : NotificationTaskWithRelations → NotificationTaskWithChannel
with_channel t = record { task = t.task; channel = t.channel }

module _ {D : Type 0} (p : Prisma D) where
  unfoldable pub find_many : FindMany MessageWhere → Action D (List MessageWithTarget)
  find_many args = p.message_find_many args

  unfoldable pub count : MessageWhere → Action D ℕ
  count filter = p.message_count filter

  unfoldable pub find_unique : Text → Action D (Option MessageWithTarget)
  find_unique id = p.message_find_unique (Database.MessageKey.by_id id)

  unfoldable pub find_unique_by_source_external_id :
      MessageSource → Text → Action D (Option MessageWithTarget)
  find_unique_by_source_external_id source external_id =
      p.message_find_unique (Database.MessageKey.by_source_external_id source external_id)

  unfoldable pub find_target_by_type_external_id :
      MonitorType → Text → Action D (Option MonitorTarget)
  find_target_by_type_external_id type external_id =
      p.target_find_unique (Database.TargetKey.by_type_external_id type external_id)

  -- An enabled Telegram target by its chat id, a channel or a group.
  unfoldable pub find_telegram_target_by_external_id : Text → Action D (Option MonitorTarget)
  find_telegram_target_by_external_id external_id =
      p.target_find_first
        (record { type_in = tg_channel ∷ tg_group ∷ []; external_id = external_id; enabled = true })

  unfoldable pub create_message : MessageData → Action D MessageWithTarget
  create_message values = p.message_create values

  unfoldable pub update_target_last_message_at : Text → ℕ → Action D MonitorTarget
  update_target_last_message_at target_id published_at =
      p.target_update target_id (record no_patch { last_message_at = some published_at })

  unfoldable pub find_notifications : Text → Action D (List NotificationTaskWithChannel)
  find_notifications message_id = do
    rows ← p.task_find_many (record {
      filter = record {
        status = none;
        channel_id = none;
        message_id = some message_id;
        created_at = none;
        sent_at = none;
      };
      order_by = created_at_asc;
      skip = 0;
      take = none;
    })
    return (map with_channel rows)

  unfoldable pub find_enabled_notification_channels : Action D (List NotificationChannel)
  find_enabled_notification_channels = p.channel_find_many (record {
    filter = record { type = none; enabled = some true };
    order_by = unordered;
    skip = 0;
    take = none;
  })

  -- Only the tasks that were really created come back.
  unfoldable pub create_notification_tasks : Text → List Text → Action D (List CreatedTask)
  create_notification_tasks message_id channel_ids =
      p.task_create_many (map (λ channel_id. (message_id, channel_id)) channel_ids)
