-- ===== src/Messages/Create/Routing.antt =====
-- Which jobs `routeToEnabledChannels` of messages/message.service.ts enqueues.
use social_monitor.Prelude.{
  ◌≡◌, refl, sym, ap, Text, true, List, [], ◌∷◌, ◌++◌, Option, none, some, arith, Option-cases, inl,
  inr,
}
use mathlib.Core.List.{append_assoc, append-nil}
use social_monitor.Core.{ok}
use social_monitor.Schema.{NotificationChannelType, MonitorType, MessageSource, NotificationChannel}
use social_monitor.Database.{Prisma, CreatedTask}
use social_monitor.World.{World, Services, Job}
use social_monitor.Queue.{contains, job_for, enqueue_task}
use social_monitor.Queue.Routing.{enqueue_task_accepted}
use social_monitor.Messages.Repository.{create_notification_tasks}
use social_monitor.Messages.Create.{type_by_channel_id, enqueue_all, route_to_enabled_channels}
use social_monitor.Messages.Create.Laws.{
  enabled_channels, find_enabled_lem, switched_on, MessageLaws, ids,
}

abbrev job_of : CreatedTask → Option NotificationChannelType → List Job → List Job
job_of t none jobs = jobs
job_of t (some type) jobs = job_for t.id type ∷ jobs

-- The jobs of a list of created tasks: each on the queue of its channel's type.
abbrev pub jobs_for : List NotificationChannel → List CreatedTask → List Job
jobs_for channels [] = []
jobs_for channels (t ∷ ts) =
    job_of t (type_by_channel_id t.channel_id channels) (jobs_for channels ts)

module _ {D N R : Type 0} (sv : Services D N R)
    (accepts : (job : Job) (r : R) → (sv.bull.add job r).0 ≡ ok tt) where
  enqueue_all_lem :
      (channels : List NotificationChannel) (created : List CreatedTask) (s : World D N R)
      → ((enqueue_all sv channels created s).0 ≡ ok tt)
        × ((enqueue_all sv channels created s).1.jobs ≡ s.jobs ++ jobs_for channels created)
        × ((enqueue_all sv channels created s).1.db ≡ s.db)
        × ((enqueue_all sv channels created s).1.io ≡ s.io)
        × ((enqueue_all sv channels created s).1.events ≡ s.events)
  unfolding enqueue_all
  enqueue_all_lem channels [] s = (refl, sym (append-nil s.jobs), refl, refl, refl)
  enqueue_all_lem channels (t ∷ ts) s =
      elim (Option-cases (type_by_channel_id t.channel_id channels)) [
        | inl e ↦ rw (e, enqueue_all) (enqueue_all_lem channels ts s)
        | inr (type, e) ↦
            let s1 = (enqueue_task sv t.id type s).1 in
            let done = enqueue_task_accepted sv t.id type s accepts in
            let rest = enqueue_all_lem channels ts s1 in
            let jobs = append_assoc s.jobs (job_for t.id type ∷ []) (jobs_for channels ts) in
            rw (e, enqueue_all)
              (ground arith, ground arith, ground arith, ground arith, ground arith)
      ]

pub jobs_for-nil : (ts : List CreatedTask) → jobs_for [] ts ≡ []
jobs_for-nil [] = refl
jobs_for-nil (t ∷ ts) = jobs_for-nil ts

-- What routing the message `m` to the channels `cs` does to the world.
pub record Routed {D N R : Type 0} {p : Prisma D} (laws : MessageLaws p) (m : Text)
    (cs : List NotificationChannel) (s s' : World D N R) : Type 0 where
  pub jobs : s'.jobs ≡ s.jobs ++ jobs_for cs (laws.new_tasks m (ids cs) s.db)
  pub io : s'.io ≡ s.io
  pub events : s'.events ≡ s.events
  pub tasked : (c : Text) → contains c (ids cs) ≡ true → laws.tasked m c s'.db ≡ true
  pub messages :
      (source : MessageSource) (k : Text)
      → laws.message_at source k s'.db ≡ laws.message_at source k s.db
  pub targets :
      (type : MonitorType) (e : Text) → laws.target_at type e s'.db ≡ laws.target_at type e s.db
  pub channels : enabled_channels laws s'.db ≡ enabled_channels laws s.db

module _ {D N R : Type 0} (sv : Services D N R) (laws : MessageLaws sv.prisma) where
  pub batch_of :
      (m : Text) (s : World D N R) (c : NotificationChannel) (cs : List NotificationChannel)
      → enabled_channels laws s.db ≡ c ∷ cs
      → let d = (create_notification_tasks sv.prisma m (ids (c ∷ cs)) s.db).1 in
        route_to_enabled_channels sv m s
        ≡ enqueue_all sv (c ∷ cs) (laws.new_tasks m (ids (c ∷ cs)) s.db) (record s { db = d })
  unfolding route_to_enabled_channels
  batch_of m s c cs e =
      ground (arith, find_enabled_lem laws s.db, laws.tasks_answer m (ids (c ∷ cs)) s.db)

  no_channels :
      (m : Text) (s : World D N R)
      → enabled_channels laws s.db ≡ []
      → route_to_enabled_channels sv m s ≡ (ok tt, s)
  unfolding route_to_enabled_channels
  no_channels m s e = ground (arith, find_enabled_lem laws s.db)

module _ {D N R : Type 0} (sv : Services D N R)
    (accepts : (job : Job) (r : R) → (sv.bull.add job r).0 ≡ ok tt)
    (laws : MessageLaws sv.prisma) where
  -- Routing with queues that accept every job succeeds. It adds one job for each task that it
  -- makes, on the queue of the channel's type; every enabled channel has a task of the message
  -- afterwards; no event is sent, and messages, targets and channels stay as they were.
  pub route_to_enabled_channels-Routed :
      (m : Text) (s : World D N R) (cs : List NotificationChannel)
      → enabled_channels laws s.db ≡ cs
      → ((route_to_enabled_channels sv m s).0 ≡ ok tt)
        × Routed laws m cs s (route_to_enabled_channels sv m s).1
  route_to_enabled_channels-Routed m s [] e = rw (no_channels sv laws m s e) (
    refl,
    record {
      jobs = rw (jobs_for-nil (laws.new_tasks m [] s.db)) (sym (append-nil s.jobs));
      io = refl;
      events = refl;
      tasked = λ c h. cc;
      messages = λ source k. refl;
      targets = λ type k. refl;
      channels = refl;
    },
  )
  route_to_enabled_channels-Routed m s (c ∷ cs) e =
      let d = (create_notification_tasks sv.prisma m (ids (c ∷ cs)) s.db).1 in
      let made = laws.new_tasks m (ids (c ∷ cs)) s.db in
      let (done, jobs, db, io, events) =
        enqueue_all_lem sv accepts (c ∷ cs) made (record s { db = d }) in
      rw (batch_of sv laws m s c cs e) (
        done,
        record {
          jobs = jobs;
          io = io;
          events = events;
          tasked = λ k h. rw db (laws.tasks_tasked m (ids (c ∷ cs)) s.db k h);
          messages = λ source k. rw db (laws.tasks_messages m (ids (c ∷ cs)) s.db source k);
          targets = λ type k. rw db (laws.tasks_targets m (ids (c ∷ cs)) s.db type k);
          channels = rw db (ap switched_on (laws.tasks_channels m (ids (c ∷ cs)) s.db));
        },
      )
