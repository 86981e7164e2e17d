-- ===== src/Notifications/Repository.antt =====
-- notifications/notification.repository.ts: the queries of the notification service.
use social_monitor.Prelude.{ℕ, Text, List, Option}
use social_monitor.Core.{Action}
use social_monitor.Schema.{NotificationChannel, NotificationTask}
use social_monitor.Database.{
  Prisma, FindMany, ChannelWhere, ChannelData, ChannelPatch, TaskWhere, TaskPatch,
  NotificationTaskWithRelations,
}

module _ {D : Type 0} (p : Prisma D) where
  unfoldable pub find_channels : FindMany ChannelWhere → Action D (List NotificationChannel)
  find_channels args = p.channel_find_many args

  unfoldable pub find_channel_by_id : Text → Action D (Option NotificationChannel)
  find_channel_by_id id = p.channel_find_unique id

  unfoldable pub create_channel : ChannelData → Action D NotificationChannel
  create_channel values = p.channel_create values

  unfoldable pub update_channel : Text → ChannelPatch → Action D NotificationChannel
  update_channel id values = p.channel_update id values

  unfoldable pub delete_channel : Text → Action D NotificationChannel
  delete_channel id = p.channel_delete id

  unfoldable pub find_tasks : FindMany TaskWhere → Action D (List NotificationTaskWithRelations)
  find_tasks args = p.task_find_many args

  unfoldable pub count_tasks : TaskWhere → Action D ℕ
  count_tasks filter = p.task_count filter

  unfoldable pub find_task_with_relations : Text → Action D (Option NotificationTaskWithRelations)
  find_task_with_relations id = p.task_find_unique id

  unfoldable pub update_task : Text → TaskPatch → Action D NotificationTask
  update_task id values = p.task_update id values
