-- ===== src/Notifications/Process/Outcome/Tests.antt =====
-- Runs of `processTask` over a small store.
use social_monitor.Prelude.{◌≡◌, refl, text, ◌==◌, [], ◌∷◌, some}
use social_monitor.Core.{ok, err}
use social_monitor.Schema.{NotificationTask, NotificationStatus, sent, failed}
use social_monitor.Fixtures.{answer, scripted}
use social_monitor.Providers.{get_provider, factory, send_telegram}
use social_monitor.Providers.Sending.{provider_of}
use social_monitor.Schema
use social_monitor.Notifications.Process.{process_task, task_not_found}
use social_monitor.Notifications.Process.Samples.{
  waiting, bot, services, providers, before, after_send,
}
use social_monitor.Notifications.Process.Store.{task_store-laws, row_in, write_row}
use social_monitor.Notifications.Process.Outcome.{
  process_task_settles, process_task_missing, settled,
}

-- A message goes out, and the row ends SENT at the time of the answer.
process_task_sent :
    (process_task services providers (text "t1") (before (answer 200 [] ∷ []))).0 ≡ ok tt
unfolding process_task factory row_in ◌==◌ write_row
process_task_sent = refl

process_task_missing_run :
    process_task services providers (text "t2") (before [])
    ≡ (err (task_not_found (text "t2")), before [])
unfolding row_in ◌==◌
process_task_missing_run =
    process_task_missing services providers task_store-laws (text "t2") (before []) refl

process_task_settles_example :
    let s' = (process_task services providers (text "t1") (before (answer 200 [] ∷ []))).1 in
    row_in (text "t1") s'.db ≡ some (record waiting { task = settled (ok tt) 1000010 waiting.task })
unfolding row_in ◌==◌ get_provider factory send_telegram
process_task_settles_example =
    (process_task_settles services providers task_store-laws (text "t1")
      (before (answer 200 [] ∷ [])) waiting
      (provider_of scripted bot Schema.NotificationChannelType.telegram) (ok tt)
      (after_send (answer 200 [] ∷ [])) refl refl refl).1
