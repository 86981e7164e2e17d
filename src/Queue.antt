-- ===== src/Queue.antt =====
-- queue/notification-queue.service.ts: tasks are put on the queue of their channel's type; and the
-- workers that queue/notification-worker.service.ts starts.
pub mod Routing
use social_monitor.Prelude.{
  ℕ, Text, text, Bool, true, false, ◌==◌, ◌||◌, nonempty?, Option, none, some, List, [], ◌∷◌, ◌++◌,
  if◌then◌else◌,
}
use social_monitor.Core.{Action, ok, err, ◌>>=◌, ◌>>◌, continue, get, return, or_default}
use social_monitor.Schema.{NotificationChannelType, telegram, wechat, qq}
use social_monitor.World.{Job, World, Services, on_redis}

abbrev pub notification_queue_job : Text
notification_queue_job = text "send-notification"

abbrev pub max_attempts : ℕ
max_attempts = 5

-- The three types are all that the enum has, so the `default` of the source has no case here.
unfoldable pub queue_name : NotificationChannelType → Text
queue_name telegram = text "notification-telegram"
queue_name wechat = text "notification-wechat"
queue_name qq = text "notification-qq"

-- How both services connect to Redis; the port as the string that is read as a number.
pub record RedisConnection : Type 0 where
  pub host : Text
  pub port : Text
  pub password : Option Text

unfoldable pub connection_of : (Text → Option Text) → RedisConnection
connection_of config = record {
  host = or_default (config (text "REDIS_HOST")) (text "localhost");
  port = or_default (config (text "REDIS_PORT")) (text "6379");
  password = nonempty? (or_default (config (text "REDIS_PASSWORD")) []);
}

pub record Worker : Type 0 where
  pub queue : Text
  pub concurrency : ℕ

abbrev worker_for : Text → Worker
worker_for name = record { queue = name; concurrency = 5 }

-- `NotificationWorkerService.onApplicationBootstrap`: the workers that are started.
unfoldable pub start_workers : (in_test : Bool) → List Worker
start_workers in_test =
    if in_test
    then []
    else worker_for (text "notification-telegram")
      ∷ worker_for (text "notification-wechat")
      ∷ worker_for (text "notification-qq")
      ∷ []

abbrev pub contains : Text → List Text → Bool
contains k [] = false
contains k (x ∷ xs) = x == k || contains k xs

-- The call of `add` for a task.
abbrev pub job_for : Text → NotificationChannelType → Job
job_for task_id type = record {
  queue = queue_name type;
  name = notification_queue_job;
  task_id = task_id;
  attempts = max_attempts;
  backoff_delay = 1000;
}

module _ {D N R : Type 0} (sv : Services D N R) where
  -- Opens the queue of a name at its first use.
  unfoldable pub queue_for : NotificationChannelType → Action (World D N R) Text
  unfolding queue_name
  queue_for type s =
      let name = queue_name type in
      if contains name s.queues
      then (ok name, s)
      else (ok name, record s { queues = s.queues ++ (name ∷ []) })

  -- `onModuleDestroy`: every queue is closed and forgotten.
  unfoldable pub close_queues : Action (World D N R) (Unit {0})
  close_queues s = (ok tt, record s { queues = [] })

  unfoldable pub add : Job → Action (World D N R) (Unit {0})
  add job s = on_redis (sv.bull.add job) (record s { jobs = s.jobs ++ (job ∷ []) })

  unfoldable pub enqueue_task : Text → NotificationChannelType → Action (World D N R) (Unit {0})
  unfolding queue_for add
  enqueue_task task_id type = do
    name ← queue_for type
    add (record {
      queue = name;
      name = notification_queue_job;
      task_id = task_id;
      attempts = max_attempts;
      backoff_delay = 1000;
    })
