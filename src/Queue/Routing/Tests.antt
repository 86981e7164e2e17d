-- ===== src/Queue/Routing/Tests.antt =====
-- Runs of queue/notification-queue.service.ts.
use social_monitor.Prelude.{◌≡◌, refl, text, ◌==◌, [], ◌∷◌}
use social_monitor.Schema.{telegram, qq}
use social_monitor.World.{World, Services}
use social_monitor.Fixtures.{Script, scripted, io_of, accepting, offline, world_of}
use social_monitor.Queue.{enqueue_task, job_for}
use social_monitor.Queue.Routing.{queue_name_inj, enqueue_task_lem}

abbrev services : Services (Unit {0}) Script (Unit {0})
services = record { prisma = offline Unit; network = scripted; bull = accepting }

abbrev idle : World (Unit {0}) Script (Unit {0})
idle = world_of tt (io_of [])

abbrev after_one : World (Unit {0}) Script (Unit {0})
after_one = (enqueue_task services (text "t1") qq idle).1

opened_once :
    (enqueue_task services (text "t2") qq after_one).1.queues ≡ text "notification-qq" ∷ []
unfolding enqueue_task ◌==◌
opened_once = refl

queue_name_inj_run : qq ≡ qq
queue_name_inj_run = queue_name_inj qq qq refl

enqueue_task_lem_run :
    (enqueue_task services (text "t1") telegram idle).1.jobs ≡ job_for (text "t1") telegram ∷ []
enqueue_task_lem_run = (enqueue_task_lem services (text "t1") telegram idle tt).0
