-- ===== src/Telegram/Ingest/Repeated/Tests.antt =====
-- Payloads of the Telegram worker at concrete input.
use social_monitor.Prelude.{◌≡◌, refl, text, ◌==◌, none, some}
use social_monitor.Schema.{MonitorTarget}
use social_monitor.Messages.Repository.{
  find_telegram_target_by_external_id, find_target_by_type_external_id,
  find_unique_by_source_external_id, create_message, update_target_last_message_at,
  find_enabled_notification_channels, create_notification_tasks,
}
use social_monitor.Messages.Create.{
  create, resolve_target, save, announce, route_to_enabled_channels, enqueue_all, insert, route_to,
}
use social_monitor.Queue.{enqueue_task, queue_for, add}
use social_monitor.World.{emit}
use social_monitor.Prelude.{show}
use social_monitor.Messages.Create.Store.{Store, message_store-laws, target_in}
use social_monitor.Messages.Create.Samples.{target, services, accepts, start}
use social_monitor.Telegram.Mapper.{
  RawTelegramMessage, to_normalized_message, build_external_id, author_of,
}
use social_monitor.Telegram.Ingest.{ingest_payload, normalized, look_up}
use social_monitor.Telegram.Ingest.Repeated.{Finds, ingest_twice}
use social_monitor.Messages.Create.Once.{Kept-refl}

abbrev same : Store → Store
same d = d

abbrev payload_of : RawTelegramMessage
payload_of = record {
  chat_id = text "-100";
  message_id = 7;
  content = some (text "hello");
  date = 5;
  sender = none;
}

found_first : Finds services (text "-100") start (some target)
unfolding find_telegram_target_by_external_id ◌==◌
found_first = refl

abbrev touched_target : MonitorTarget
touched_target = record target { last_message_at = some 5000 }

found_second :
    Finds services
      (text "-100")
      (ingest_payload services same payload_of start).1
      (some touched_target)
unfolding ingest_payload look_up find_telegram_target_by_external_id create target_in ◌==◌
    resolve_target save announce route_to_enabled_channels enqueue_all
    find_target_by_type_external_id find_unique_by_source_external_id create_message
    update_target_last_message_at find_enabled_notification_channels create_notification_tasks
    enqueue_task queue_for emit normalized to_normalized_message insert route_to build_external_id
    show author_of add
found_second = refl

held :
    message_store-laws.target_at
      (normalized target payload_of).target_type
      (normalized target payload_of).target_external_id
      start.db
    ≡ some target
unfolding normalized to_normalized_message target_in ◌==◌
held = refl

ingest_twice_example :
    let first = ingest_payload services same payload_of start in
    (ingest_payload services same payload_of first.1).1.jobs ≡ first.1.jobs
ingest_twice_example =
    (ingest_twice services message_store-laws accepts same same payload_of start
      (ingest_payload services same payload_of start).1 target touched_target found_first
      found_second (refl, refl, refl) held held
      (Kept-refl message_store-laws (normalized target payload_of)
        (ingest_payload services same payload_of start).1.db)).1
