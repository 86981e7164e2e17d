-- ===== src/Messages/Create/Once/Tests.antt =====
-- A message that arrives twice.
use social_monitor.Prelude.{◌≡◌, refl, ◌==◌, []}
use social_monitor.Fixtures.{Script}
use social_monitor.World.{World}
use social_monitor.Messages.Create.{create}
use social_monitor.Messages.Create.Store.{Store, message_store-laws, target_in}
use social_monitor.Messages.Create.Samples.{target, input, services, accepts, start}
use social_monitor.Messages.Create.Once.{Kept-refl, create_twice}

abbrev same : Store → Store
same d = d

-- Between the calls a job runs and an event is sent.
abbrev between : World Store Script (Unit {0})
between = record (create services same input start).1 { jobs = []; events = [] }

create_twice_example : (create services same input between).1.jobs ≡ []
unfolding target_in ◌==◌
create_twice_example =
    (create_twice services message_store-laws accepts input same same start between target refl refl
      (Kept-refl message_store-laws input between.db)).1
