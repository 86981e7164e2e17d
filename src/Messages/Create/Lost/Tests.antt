-- ===== src/Messages/Create/Lost/Tests.antt =====
-- A message whose job is refused, and that arrives again.
use social_monitor.Prelude.{◌≡◌, refl, text, ◌==◌, [], ◌∷◌}
use social_monitor.Core.{err}
use social_monitor.Fixtures.{Script, refused}
use social_monitor.World.{Services}
use social_monitor.Queue.{job_for}
use social_monitor.Schema
use social_monitor.Messages.Repository.{update_target_last_message_at, create_message}
use social_monitor.Messages.Create.{create}
use social_monitor.Messages.Create.Store.{Store, message_store-laws, target_in, channel}
use social_monitor.Messages.Create.Samples.{target, input, services, accepts, start}
use social_monitor.Messages.Create.Lost.{create_lost}
use social_monitor.Messages.Create.Once.{Kept-refl}

abbrev down : Services Store Script (Unit {0})
down = record services { bull = record { add = λ job r. (err refused, r) } }

abbrev same : Store → Store
same d = d

create_lost_example :
    let first = create down same input start in
    (create services same input first.1).1.jobs ≡ first.1.jobs
unfolding target_in ◌==◌ update_target_last_message_at create_message
create_lost_example =
    (create_lost down refused (λ job r. refl) message_store-laws same input start target
      (channel (text "c1") Schema.NotificationChannelType.telegram)
      (channel (text "c2") Schema.NotificationChannelType.qq ∷ [])
      (job_for (text "c1") Schema.NotificationChannelType.telegram)
      (job_for (text "c2") Schema.NotificationChannelType.qq ∷ []) refl refl refl refl refl refl
      services.bull accepts (create down same input start).1
      (Kept-refl message_store-laws input (create down same input start).1.db)).4
