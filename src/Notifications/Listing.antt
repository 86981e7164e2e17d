-- ===== src/Notifications/Listing.antt =====
-- The task lists of notifications/notification.service.ts: `listTasks` and `getTask`.
pub mod Pages
use social_monitor.Prelude.{ℕ, ◌-◌, ◌*◌, Text, take, List, map, Option, none, some}
use social_monitor.Core.{
  Action, ◌>>=◌, continue, return, or_throw, ApiSuccessResponse, ApiPaginatedResponse, api_data,
  api_paginated,
}
use social_monitor.Schema.{MessageSource, NotificationChannelType, NotificationStatus}
use social_monitor.Database.{Prisma, TaskWhere, NotificationTaskWithRelations, created_at_desc}
use social_monitor.Paging.{page_or_first, size_or_default, date_range, when_truthy}
use social_monitor.Notifications.Repository.{find_tasks, count_tasks, find_task_with_relations}
use social_monitor.Notifications.Process.{task_not_found}

pub record TaskQuery : Type 0 where
  pub page : Option ℕ
  pub page_size : Option ℕ
  pub status : Option NotificationStatus
  pub channel_id : Option Text
  pub date_from : Option ℕ
  pub date_to : Option ℕ

pub record TaskChannel : Type 0 where
  pub id : Text
  pub name : Text
  pub type : NotificationChannelType

pub record TaskMessage : Type 0 where
  pub id : Text
  pub target_name : Text
  pub content : Text

pub record TaskDto : Type 0 where
  pub id : Text
  pub message_id : Text
  pub message : TaskMessage
  pub channel : TaskChannel
  pub status : NotificationStatus
  pub attempts : ℕ
  pub last_error : Option Text
  pub sent_at : Option ℕ
  pub created_at : ℕ

pub record DetailMessage : Type 0 where
  pub id : Text
  pub source : MessageSource
  pub target_name : Text
  pub content : Text
  pub url : Option Text
  pub published_at : ℕ

pub record TaskDetailDto : Type 0 where
  pub id : Text
  pub message_id : Text
  pub message : DetailMessage
  pub channel : TaskChannel
  pub status : NotificationStatus
  pub attempts : ℕ
  pub last_error : Option Text
  pub sent_at : Option ℕ
  pub created_at : ℕ

unfoldable pub to_task_dto : NotificationTaskWithRelations → TaskDto
to_task_dto t = record {
  id = t.task.id;
  message_id = t.task.message_id;
  message = record {
    id = t.message.id;
    target_name = t.target.name;
    content = take 120 t.message.content;
  };
  channel = record { id = t.channel.id; name = t.channel.name; type = t.channel.type };
  status = t.task.status;
  attempts = t.task.attempts;
  last_error = t.task.last_error;
  sent_at = t.task.sent_at;
  created_at = t.task.created_at;
}

-- `...this.toTaskDto(task)` with the `message` of the detail.
unfoldable pub to_task_detail_dto : NotificationTaskWithRelations → TaskDetailDto
to_task_detail_dto t =
    let dto = to_task_dto t in
    record {
      id = dto.id;
      message_id = dto.message_id;
      message = record {
        id = t.message.id;
        source = t.message.source;
        target_name = t.target.name;
        content = t.message.content;
        url = t.message.url;
        published_at = t.message.published_at;
      };
      channel = dto.channel;
      status = dto.status;
      attempts = dto.attempts;
      last_error = dto.last_error;
      sent_at = dto.sent_at;
      created_at = dto.created_at;
    }

unfoldable pub task_where : TaskQuery → TaskWhere
task_where q = record {
  status = q.status;
  channel_id = when_truthy q.channel_id;
  message_id = none;
  created_at = date_range q.date_from q.date_to;
  sent_at = none;
}

module _ {D : Type 0} (p : Prisma D) where
  unfoldable pub list_tasks : TaskQuery → Action D (ApiPaginatedResponse TaskDto)
  unfolding find_tasks count_tasks
  list_tasks q = do
    let page = page_or_first q.page
    let page_size = size_or_default q.page_size
    items ← find_tasks p (record {
      filter = task_where q;
      order_by = created_at_desc;
      skip = (page - 1) * page_size;
      take = some page_size;
    })
    total ← count_tasks p (task_where q)
    return (
        api_paginated (map to_task_dto items)
          (record { page = page; page_size = page_size; total = total }))

  unfoldable pub get_task : Text → Action D (ApiSuccessResponse TaskDetailDto)
  unfolding find_task_with_relations
  get_task id = do
    found ← find_task_with_relations p id
    t ← or_throw (task_not_found id) found
    return (api_data (to_task_detail_dto t))
