-- ===== src/Messages/Queries.antt =====
-- The reads of messages/message.service.ts: `list`, `findOne` and `findNotifications`.
pub mod Newest
pub mod Pages
pub mod Samples
use social_monitor.Prelude.{
  ℕ, ◌-◌, ◌*◌, Text, truthy, or_null, List, [], ◌∷◌, map, Option, none, some, if◌then◌else◌,
}
use social_monitor.Core.{
  Action, ◌>>=◌, continue, return, or_throw, ApiSuccessResponse, ApiPaginatedResponse, api_data,
  api_paginated,
}
use social_monitor.Schema.{MessageSource}
use social_monitor.Database.{
  Prisma, MessageWhere, MessageField, content, author_username, author_name, author_external_id,
  published_at_desc,
}
use social_monitor.Paging.{page_or_first, size_or_default, date_range, when_truthy}
use social_monitor.Messages.Repository.{find_many, count, find_unique, find_notifications}
use social_monitor.Messages.Dto.{
  MessageDto, MessageNotificationDto, to_dto, to_notification_dto, message_not_found,
}

pub record MessageQuery : Type 0 where
  pub page : Option ℕ
  pub page_size : Option ℕ
  pub source : Option MessageSource
  pub target_id : Option Text
  pub keyword : Option Text
  pub date_from : Option ℕ
  pub date_to : Option ℕ

abbrev keyword_in : Text → List (MessageField × Text)
keyword_in k = (content, k) ∷ (author_username, k) ∷ (author_name, k) ∷ (author_external_id, k) ∷ []

-- The `where` that the query stands for.
unfoldable pub message_where : MessageQuery → MessageWhere
message_where q = record {
  source = q.source;
  target_id = when_truthy q.target_id;
  or = if truthy q.keyword then keyword_in (or_null q.keyword []) else [];
  published_at = date_range q.date_from q.date_to;
}

module _ {D : Type 0} (p : Prisma D) where
  unfoldable pub list : MessageQuery → Action D (ApiPaginatedResponse MessageDto)
  unfolding find_many count message_where
  list q = do
    let page = page_or_first q.page
    let page_size = size_or_default q.page_size
    items ← find_many p (record {
      filter = message_where q;
      order_by = published_at_desc;
      skip = (page - 1) * page_size;
      take = some page_size;
    })
    total ← count p (message_where q)
    return (
        api_paginated (map to_dto items)
          (record { page = page; page_size = page_size; total = total }))

  unfoldable pub find_one : Text → Action D (ApiSuccessResponse MessageDto)
  unfolding find_unique
  find_one id = do
    found ← find_unique p id
    m ← or_throw (message_not_found id) found
    return (api_data (to_dto m))

  unfoldable pub list_notifications :
      Text → Action D (ApiSuccessResponse (List MessageNotificationDto))
  unfolding find_unique find_notifications
  list_notifications id = do
    found ← find_unique p id
    _ ← or_throw (message_not_found id) found
    tasks ← find_notifications p id
    return (api_data (map to_notification_dto tasks))
