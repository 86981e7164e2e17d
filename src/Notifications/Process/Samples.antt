-- ===== src/Notifications/Process/Samples.antt =====
-- A task, its surroundings, and services that run it, for the tests.
use social_monitor.Prelude.{text, true, List, [], ◌∷◌, none, some}
use social_monitor.Schema.{
  MonitorTarget, Message, ChannelConfig, NotificationChannel, NotificationTask,
  NotificationChannelType, tg_group, pending,
}
use social_monitor.Schema
use social_monitor.Database.{NotificationTaskWithRelations}
use social_monitor.Net.{Io, Outcome}
use social_monitor.Qq.Client.{QqClient}
use social_monitor.World.{World, Services}
use social_monitor.Fixtures.{Script, scripted, io_of, accepting, world_of}
use social_monitor.Providers.{NotificationProvider, factory, send_telegram}
use social_monitor.Notifications.Process.{build_payload}
use social_monitor.Notifications.Process.Store.{Rows, task_store}

abbrev pub group_target : MonitorTarget
group_target = record {
  id = text "m1";
  type = tg_group;
  name = text "News";
  username = none;
  external_id = text "-100";
  enabled = true;
  last_message_at = none;
}

abbrev pub group_message : Message
group_message = record {
  id = text "g1";
  source = Schema.MessageSource.telegram;
  external_id = text "-100:7";
  target_id = text "m1";
  author_external_id = some (text "42");
  author_username = none;
  author_name = some (text "Ann");
  content = text "hello";
  url = none;
  published_at = 5000;
}

abbrev pub no_config : ChannelConfig
no_config = record { bot_token = none; chat_id = none; webhook_url = none; group_openid = none }

abbrev pub channel_of : NotificationChannelType → ChannelConfig → NotificationChannel
channel_of type config = record {
  id = text "c1";
  name = text "alerts";
  type = type;
  enabled = true;
  config = config;
}

abbrev pub telegram_channel : NotificationChannel
telegram_channel =
    channel_of Schema.NotificationChannelType.telegram
      (record no_config { bot_token = some (text "T"); chat_id = some (text "9") })

abbrev pub first_task : NotificationTask
first_task = record {
  id = text "t1";
  message_id = text "g1";
  channel_id = text "c1";
  status = pending;
  attempts = 0;
  last_error = none;
  sent_at = none;
  created_at = 6000;
}

abbrev pub waiting : NotificationTaskWithRelations
waiting = record {
  task = first_task;
  message = group_message;
  target = group_target;
  channel = telegram_channel;
}

abbrev pub rows : Rows
rows = (text "t1", waiting) ∷ []

abbrev pub bot : QqClient
bot = record {
  app_id = text "A";
  client_secret = text "S";
  token_url = text "u";
  api_base = text "b";
}

abbrev pub services : Services Rows Script (Unit {0})
services = record { prisma = task_store; network = scripted; bull = accepting }

abbrev pub providers : List (NotificationProvider (Io Script))
unfolding factory
providers = factory scripted bot

abbrev pub before : List Outcome → World Rows Script (Unit {0})
before answers = world_of rows (io_of answers)

-- The state after the provider has sent the message of the task.
abbrev pub after_send : List Outcome → Io Script
after_send answers =
    (send_telegram scripted bot waiting.channel.config (build_payload waiting) (io_of answers)).1
