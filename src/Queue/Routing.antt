-- ===== src/Queue/Routing.antt =====
-- Which queue queue/notification-queue.service.ts puts a task on.
mod Tests
use social_monitor.Prelude.{
  ◌≡◌, refl, Text, Bool, true, false, ◌==◌, ==_iff, ==_refl, List, [], ◌∷◌, ◌++◌, arith, Bool-cases,
  inl, inr, ◌||◌,
}
use social_monitor.Core.{ok}
use social_monitor.Schema.{NotificationChannelType, telegram, wechat, qq}
use social_monitor.World.{World, Services, Job}
use social_monitor.Queue.{
  Worker, start_workers, queue_name, contains, queue_for, enqueue_task, job_for,
}

-- Each type of channel has a queue of its own.
pub queue_name_inj : (a b : NotificationChannelType) → queue_name a ≡ queue_name b → a ≡ b
unfolding queue_name
queue_name_inj telegram telegram e = refl
queue_name_inj wechat wechat e = refl
queue_name_inj qq qq e = refl
queue_name_inj a b e = cc

-- No name twice.
abbrev pub IsDistinct : List Text → Type 0
IsDistinct [] = Unit
IsDistinct (x ∷ xs) = (contains x xs ≡ false) × IsDistinct xs

abbrev names : List Worker → List Text
names [] = []
names (w ∷ ws) = w.queue ∷ names ws

-- Outside the tests there is one worker for the queue of each type of channel.
pub start_workers_cover :
    (type : NotificationChannelType)
    → (contains (queue_name type) (names (start_workers false)) ≡ true)
      × IsDistinct (names (start_workers false))
unfolding queue_name start_workers ◌==◌
start_workers_cover telegram = (refl, (refl, (refl, (refl, tt))))
start_workers_cover wechat = (refl, (refl, (refl, (refl, tt))))
start_workers_cover qq = (refl, (refl, (refl, (refl, tt))))

contains-append :
    (k x : Text) (xs : List Text) → contains k (xs ++ x ∷ []) ≡ (contains k xs || x == k)
contains-append k x [] = ground arith
contains-append k x (y ∷ xs) = ground (arith, contains-append k x xs)

contains-append_self : (k : Text) (xs : List Text) → contains k (xs ++ k ∷ []) ≡ true
contains-append_self k xs = ground (arith, contains-append k k xs, ==_refl k)

append-IsDistinct :
    (k : Text) (xs : List Text) → contains k xs ≡ false → IsDistinct xs → IsDistinct (xs ++ k ∷ [])
append-IsDistinct k [] h d = (refl, tt)
append-IsDistinct k (x ∷ xs) h d =
    ground (arith, contains-append x k xs, append-IsDistinct k xs, ==_iff k x, ==_iff x k)

module _ {D N R : Type 0} (sv : Services D N R) where
  -- Enqueueing a task makes one call of `add`, whatever the queue answers: on the queue of the
  -- channel's type, with the task's id, five attempts and exponential backoff from a second. The
  -- queue is open afterwards, no queue is opened twice, and the answer of `add` is passed on.
  pub enqueue_task_lem :
      (task_id : Text) (type : NotificationChannelType) (s : World D N R)
      → IsDistinct s.queues
      → ((enqueue_task sv task_id type s).1.jobs ≡ s.jobs ++ (job_for task_id type ∷ []))
        × (contains (queue_name type) (enqueue_task sv task_id type s).1.queues ≡ true)
        × IsDistinct (enqueue_task sv task_id type s).1.queues
        × ((enqueue_task sv task_id type s).0 ≡ (sv.bull.add (job_for task_id type) s.redis).0)
  unfolding enqueue_task
  enqueue_task_lem task_id type s d = elim (Bool-cases (contains (queue_name type) s.queues)) [
    | inl e ↦ rw e (refl, e, d, refl)
    | inr e ↦ rw e (
      refl,
      contains-append_self (queue_name type) s.queues,
      append-IsDistinct (queue_name type) s.queues e d,
      refl,
    )
  ]

  -- With a queue that accepts the job, nothing else of the world changes.
  pub enqueue_task_accepted :
      (task_id : Text) (type : NotificationChannelType) (s : World D N R)
      → ((job : Job) (r : R) → (sv.bull.add job r).0 ≡ ok tt)
      → ((enqueue_task sv task_id type s).0 ≡ ok tt)
        × ((enqueue_task sv task_id type s).1.jobs ≡ s.jobs ++ job_for task_id type ∷ [])
        × ((enqueue_task sv task_id type s).1.db ≡ s.db)
        × ((enqueue_task sv task_id type s).1.io ≡ s.io)
        × ((enqueue_task sv task_id type s).1.events ≡ s.events)
  unfolding enqueue_task
  enqueue_task_accepted task_id type s accepts =
      elim (Bool-cases (contains (queue_name type) s.queues)) [
        | inl e ↦ rw e (accepts _ _, refl, refl, refl, refl)
        | inr e ↦ rw e (accepts _ _, refl, refl, refl, refl)
      ]
