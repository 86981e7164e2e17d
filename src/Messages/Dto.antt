-- ===== src/Messages/Dto.antt =====
-- The data that messages/message.service.ts takes and gives: packages/types/src/index.ts and the
-- DTOs, with the functions that fill them.
use social_monitor.Prelude.{
  ℕ, Text, text, ◌++◌, Bool, true, false, ◌||◌, Option, none, some, if◌then◌else◌,
}
use social_monitor.Core.{Exception, not_found, http}
use social_monitor.Schema.{
  MonitorType, MessageSource, NotificationChannelType, NotificationStatus, MonitorTarget,
  monitor_type_name,
}
use social_monitor.Database.{MessageWithTarget, MessageData, NotificationTaskWithChannel}

pub record Author : Type 0 where
  pub external_id : Option Text
  pub username : Option Text
  pub display_name : Option Text

pub record NormalizedMessage : Type 0 where
  pub source : MessageSource
  pub external_id : Text
  pub target_external_id : Text
  pub target_type : MonitorType
  pub target_name : Text
  pub author : Option Author
  pub content : Text
  pub url : Option Text
  pub published_at : ℕ

pub record Named : Type 0 where
  pub id : Text
  pub name : Text

pub record MessageDto : Type 0 where
  pub id : Text
  pub source : MessageSource
  pub target : Named
  pub author : Option Author
  pub content : Text
  pub url : Option Text
  pub published_at : ℕ

pub record NotificationChannelDto : Type 0 where
  pub id : Text
  pub name : Text
  pub type : NotificationChannelType

pub record MessageNotificationDto : Type 0 where
  pub id : Text
  pub channel : NotificationChannelDto
  pub status : NotificationStatus
  pub attempts : ℕ
  pub sent_at : Option ℕ

abbrev is_set : Option Text → Bool
is_set none = false
is_set (some s) = true

unfoldable pub to_dto : MessageWithTarget → MessageDto
to_dto m = record {
  id = m.message.id;
  source = m.message.source;
  target = record { id = m.target.id; name = m.target.name };
  author =
      if is_set m.message.author_external_id
        || is_set m.message.author_username
        || is_set m.message.author_name
      then some (record {
        external_id = m.message.author_external_id;
        username = m.message.author_username;
        display_name = m.message.author_name;
      })
      else none;
  content = m.message.content;
  url = m.message.url;
  published_at = m.message.published_at;
}

unfoldable pub to_notification_dto : NotificationTaskWithChannel → MessageNotificationDto
to_notification_dto t = record {
  id = t.task.id;
  channel = record { id = t.channel.id; name = t.channel.name; type = t.channel.type };
  status = t.task.status;
  attempts = t.task.attempts;
  sent_at = t.task.sent_at;
}

-- `input.author?.externalId ?? null`, and so for the other members.
abbrev author_external_id : Option Author → Option Text
author_external_id none = none
author_external_id (some a) = a.external_id

abbrev author_username : Option Author → Option Text
author_username none = none
author_username (some a) = a.username

abbrev author_name : Option Author → Option Text
author_name none = none
author_name (some a) = a.display_name

unfoldable pub create_input : NormalizedMessage → MonitorTarget → MessageData
create_input input target = record {
  source = input.source;
  external_id = input.external_id;
  target_id = target.id;
  author_external_id = author_external_id input.author;
  author_username = author_username input.author;
  author_name = author_name input.author;
  content = input.content;
  url = input.url;
  published_at = input.published_at;
}

abbrev pub message_not_found : Text → Exception
message_not_found id =
    http not_found 404 (text "Message not found: " ++ id) (text "MESSAGE_NOT_FOUND")

abbrev pub target_not_found : MonitorType → Text → Exception
target_not_found type external_id =
    http not_found 404
      (text "Monitor target not found: " ++ (monitor_type_name type ++ (text ":" ++ external_id)))
      (text "TARGET_NOT_FOUND")
