-- ===== src/Notifications/Process/Retries/Tests.antt =====
-- A failure, other work, and a second attempt that succeeds.
use social_monitor.Prelude.{◌≡◌, ◌==◌, refl, text, [], ◌∷◌, some}
use social_monitor.Core.{ok}
use social_monitor.Database.{NotificationTaskWithRelations}
use social_monitor.Schema
use social_monitor.Net.{Io}
use social_monitor.Schema.{NotificationChannelType}
use social_monitor.Fixtures.{Script, answer, scripted}
use social_monitor.World.{World, Job}
use social_monitor.Queue.{job_for}
use social_monitor.Providers.{NotificationProvider, get_provider, factory}
use social_monitor.Providers.Sending.{provider_of, get_provider-factory}
use social_monitor.Notifications.Process.{process, dispatch, process_task}
use social_monitor.Notifications.Process.Samples.{waiting, bot, services, providers, before}
use social_monitor.Notifications.Process.Store.{Rows, task_store-laws, row_in}
use social_monitor.Notifications.Process.Retries.{
  History, start, run, other, Tried, History-attempts, dispatch_swallows, swallowed,
}

abbrev job : Job
job = job_for (text "t1") Schema.NotificationChannelType.telegram

abbrev first : World Rows Script (Unit {0})
first = before (answer 500 [] ∷ answer 200 [] ∷ [])

abbrev second : World Rows Script (Unit {0})
second = (process services providers job first).1

abbrev third : World Rows Script (Unit {0})
third = (process services providers job second).1

history : History services providers task_store-laws (text "t1") first 2 third
history = run (other (run start job refl refl) refl) job refl refl

total :
    (type : NotificationChannelType)
    → (p : NotificationProvider (Io Script)) × (get_provider providers type ≡ ok p)
unfolding factory
total type = (provider_of scripted bot type, (get_provider-factory scripted bot type).0)

History-attempts_example :
    (v : NotificationTaskWithRelations) × (row_in (text "t1") third.db ≡ some v) × Tried 2 waiting v
unfolding row_in ◌==◌
History-attempts_example =
    History-attempts services providers task_store-laws total (text "t1") first third 2 waiting refl
      history

dispatch_swallows_run :
    (dispatch services providers (text "t1") first).0
    ≡ swallowed (process_task services providers (text "t1") first).0
dispatch_swallows_run = (dispatch_swallows services providers task_store-laws (text "t1") first).1
