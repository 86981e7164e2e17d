-- ===== src/Messages/Create/Storing/Tests.antt =====
-- Runs of `create` over a small database.
use social_monitor.Prelude.{◌≡◌, refl, text, ◌==◌}
use social_monitor.Core.{ok, err}
use social_monitor.Fixtures.{Script}
use social_monitor.World.{World}
use social_monitor.Database.{MessageWithTarget}
use social_monitor.Messages.Dto.{NormalizedMessage, create_input, to_dto, target_not_found}
use social_monitor.Messages.Create.{create}
use social_monitor.Messages.Create.Store.{Store, message_store-laws, target_in, made, with_message}
use social_monitor.Messages.Create.Samples.{target, empty_store, input, services, accepts, start}
use social_monitor.Messages.Create.Storing.{create_unmonitored, create_raced, create_new, created}

abbrev same : Store → Store
same d = d

-- Another client stores the message first.
abbrev other_client : Store → Store
unfolding create_input
other_client d = with_message (create_input input target) d

abbrev elsewhere : NormalizedMessage
elsewhere = record input { target_external_id = text "-200" }

abbrev theirs : MessageWithTarget
theirs = made (create_input input target) empty_store

abbrev holding : World Store Script (Unit {0})
holding = record start { db = other_client empty_store }

create_unmonitored_run :
    create services same elsewhere start
    ≡ (err (target_not_found input.target_type (text "-200")), start)
unfolding target_in ◌==◌
create_unmonitored_run = create_unmonitored services message_store-laws same elsewhere start refl

create_raced_example : (create services other_client input start).0 ≡ ok (to_dto theirs)
unfolding target_in ◌==◌ create_input
create_raced_example =
    (create_raced services message_store-laws other_client input start accepts target theirs refl
      refl refl).0

create_new_example :
    (create services same input start).0
    ≡ ok (to_dto (created services message_store-laws same input start target))
unfolding target_in ◌==◌
create_new_example =
    (create_new services message_store-laws same input start accepts target refl refl refl refl).0
