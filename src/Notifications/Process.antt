-- ===== src/Notifications/Process.antt =====
-- The task runner of notifications/notification.service.ts, `processTask` and `dispatch`, and the
-- worker of queue/notification-worker.service.ts, which calls it for every attempt of a job.
pub mod Laws
pub mod Outcome
pub mod Retries
mod Store
pub mod Samples
use social_monitor.Prelude.{
  ℕ, zero, suc, ◌+◌, Text, text, ◌++◌, Bool, true, false, List, [], ◌∷◌, Option, none, some,
  or_text, or_null, if◌then◌else◌,
}
use social_monitor.Core.{
  Exception, not_found, http, is_not_found, message_of, Result, ok, err, Action, ◌>>=◌, ◌>>◌,
  continue, return, throw, catch, rescue, or_throw, result, get,
}
use social_monitor.Schema.{
  MonitorType, x_user, tg_channel, tg_group, NotificationTask, NotificationStatus, processing, sent,
  failed,
}
use social_monitor.Format.{NotificationPayload}
use social_monitor.Net.{Io}
use social_monitor.Database.{NotificationTaskWithRelations, TaskPatch}
use social_monitor.World.{
  World, Services, Job, on_db, on_io, in_db, in_io, emit, world_now, notification_sent,
  notification_failed,
}
use social_monitor.Providers.{NotificationProvider, get_provider}
use social_monitor.Notifications.Repository.{find_task_with_relations, update_task}

abbrev pub monitor_type_label : MonitorType → Text
monitor_type_label x_user = text "X"
monitor_type_label tg_channel = text "TG频道"
monitor_type_label tg_group = text "TG群组"

-- Only the messages of a group name their author.
abbrev pub payload_author : NotificationTaskWithRelations → MonitorType → Text
payload_author t tg_group =
    or_null t.message.author_name
      (or_null t.message.author_username (or_null t.message.author_external_id []))
payload_author t x_user = []
payload_author t tg_channel = []

unfoldable pub build_payload : NotificationTaskWithRelations → NotificationPayload
build_payload t = record {
  source_label = monitor_type_label t.target.type;
  target_name = t.target.name;
  author = payload_author t t.target.type;
  content = t.message.content;
  url = t.message.url;
}

abbrev pub task_not_found : Text → Exception
task_not_found id =
    http not_found 404 (text "Notification task not found: " ++ id) (text "TASK_NOT_FOUND")

-- The three writes of an attempt.
abbrev pub start_patch : TaskPatch
start_patch = record { status = processing; increment = 1; sent_at = none; last_error = none }

abbrev pub sent_patch : ℕ → TaskPatch
sent_patch now = record { status = sent; increment = 0; sent_at = some now; last_error = some none }

abbrev pub failed_patch : Exception → TaskPatch
failed_patch e = record {
  status = failed;
  increment = 0;
  sent_at = none;
  last_error = some (some (message_of e));
}

module _ {D N R : Type 0} (sv : Services D N R)
    (providers : List (NotificationProvider (Io N))) where
  abbrev write : Text → TaskPatch → Action (World D N R) NotificationTask
  write id patch = on_db (update_task sv.prisma id patch)

  -- The body of the `try`.
  attempt : Text → NotificationTaskWithRelations → Action (World D N R) (Unit {0})
  unfolding update_task get_provider emit build_payload
  attempt id t = do
    provider ← result (get_provider providers t.channel.type)
    on_io (provider.send t.channel.config (build_payload t))
    s ← get
    _ ← write id (sent_patch (world_now sv s))
    emit sv (notification_sent id t.channel.type (t.task.attempts + 1))

  -- The `catch`.
  fail : Text → NotificationTaskWithRelations → Exception → Action (World D N R) (Unit {0})
  unfolding update_task emit
  fail id t e = do
    _ ← write id (failed_patch e)
    emit sv (notification_failed id t.channel.type (t.task.attempts + 1) (message_of e))
    throw e

  unfoldable pub process_task : Text → Action (World D N R) (Unit {0})
  unfolding find_task_with_relations update_task attempt fail
  process_task id = do
    found ← on_db (find_task_with_relations sv.prisma id)
    t ← or_throw (task_not_found id) found
    _ ← write id start_patch
    catch (attempt id t) (fail id t)

  swallow : Exception → Action (World D N R) (Unit {0})
  swallow e = if is_not_found e then throw e else return tt

  unfoldable pub dispatch : Text → Action (World D N R) (Unit {0})
  unfolding swallow
  dispatch id = catch (process_task id) swallow

  -- `NotificationWorkerService.process`
  unfoldable pub process : Job → Action (World D N R) (Unit {0})
  unfolding process_task
  process job = process_task job.task_id
