-- ===== src/Messages/Create/Lost.antt =====
-- A job that is refused is lost: queue/notification-queue.service.ts is asked only for tasks that
-- messages/message.service.ts has just made.
mod Tests
use social_monitor.Prelude.{
  ℕ, ◌≡◌, refl, sym, ap, subst, ◌∙◌, Text, text, ◌==◌, Bool, true, false, List, [], ◌∷◌, ◌++◌,
  Option, none, some, arith, if◌then◌else◌, Option-cases, Bool-cases, inl, inr,
}
use social_monitor.Core.{Exception, Result, ok, err}
use social_monitor.Schema.{MonitorTarget, NotificationChannelType, NotificationChannel}
use social_monitor.Database.{Prisma, MessageWithTarget, CreatedTask}
use social_monitor.World.{World, Services, Bull, Job}
use social_monitor.Queue.{contains, queue_name, job_for, enqueue_task}
use social_monitor.Messages.Repository.{create_notification_tasks}
use social_monitor.Messages.Dto.{NormalizedMessage, MessageDto, to_dto}
use social_monitor.Messages.Create.{
  create, enqueue_all, route_to_enabled_channels, type_by_channel_id,
}
use social_monitor.Messages.Create.Laws.{enabled_channels, switched_on, MessageLaws, ids, touched}
use social_monitor.Messages.Create.Routing.{jobs_for, batch_of}
use social_monitor.Messages.Create.Storing.{new_lem, created, new_world, routed}
use social_monitor.Messages.Create.Once.{
  Held, Kept, Held-Kept, again, new_stored, new_target, to_dto-touched,
}

module _ {D N R : Type 0} (sv : Services D N R) (e : Exception)
    (refuses : (job : Job) (r : R) → (sv.bull.add job r).0 ≡ err e) where
  enqueue_task_refused :
      (id : Text) (type : NotificationChannelType) (s : World D N R)
      → ((enqueue_task sv id type s).0 ≡ err e)
        × ((enqueue_task sv id type s).1.jobs ≡ s.jobs ++ job_for id type ∷ [])
        × ((enqueue_task sv id type s).1.db ≡ s.db)
  unfolding enqueue_task
  enqueue_task_refused id type s = elim (Bool-cases (contains (queue_name type) s.queues)) [
    | inl h ↦ rw h (refuses _ _, refl, refl)
    | inr h ↦ rw h (refuses _ _, refl, refl)
  ]

  enqueue_all_refused :
      (channels : List NotificationChannel) (created : List CreatedTask) (s : World D N R) (j : Job)
      (js : List Job)
      → jobs_for channels created ≡ j ∷ js
      → ((enqueue_all sv channels created s).0 ≡ err e)
        × ((enqueue_all sv channels created s).1.jobs ≡ s.jobs ++ j ∷ [])
        × ((enqueue_all sv channels created s).1.db ≡ s.db)
  unfolding enqueue_all
  enqueue_all_refused channels [] s j js h = cc
  enqueue_all_refused channels (t ∷ ts) s j js h =
      elim (Option-cases (type_by_channel_id t.channel_id channels)) [
        | inl n ↦ rw (n, enqueue_all) (enqueue_all_refused channels ts s j js (rw n at h))
        | inr (type, n) ↦
            let (done, jobs, db) = enqueue_task_refused t.id type s in
            rw (n, enqueue_all) (ground arith, ground arith, ground arith)
      ]

  module _ (laws : MessageLaws sv.prisma) (others : D → D) (input : NormalizedMessage)
      (s : World D N R) (t : MonitorTarget) where
    abbrev stored_world : World D N R
    stored_world = new_world sv laws others input s t

    abbrev message : MessageWithTarget
    message = created sv laws others input s t

    abbrev batch_for : List NotificationChannel → D
    batch_for cs =
        (create_notification_tasks sv.prisma message.message.id (ids cs) stored_world.db).1

    abbrev batch : D
    batch = batch_for (enabled_channels laws stored_world.db)

    batch-Held :
        laws.target_at input.target_type input.target_external_id (others s.db) ≡ some t
        → laws.message_at input.source input.external_id (others s.db) ≡ none
        → Held laws input (to_dto message) batch
    batch-Held h' k' = record {
      message = record message { target = touched t.id input.published_at t };
      target = touched t.id input.published_at t;
      stored =
          laws.tasks_messages _ _ stored_world.db input.source input.external_id
          ∙ new_stored sv laws input others s t h' k';
      monitored =
          laws.tasks_targets _ _ stored_world.db input.target_type input.target_external_id
          ∙ new_target sv laws input others s t h';
      shown = to_dto-touched t.id input.published_at message;
      tasked = λ c known.
          laws.tasks_tasked message.message.id (ids (enabled_channels laws stored_world.db))
            stored_world.db c (rw (← same_channels) known);
    }
      where
        same_channels : enabled_channels laws batch ≡ enabled_channels laws stored_world.db
        same_channels = ap switched_on (
            laws.tasks_channels message.message.id (ids (enabled_channels laws stored_world.db))
              stored_world.db)

    first_lost :
        (c : NotificationChannel) (cs : List NotificationChannel) (j : Job) (js : List Job)
        → laws.target_at input.target_type input.target_external_id s.db ≡ some t
        → laws.target_at input.target_type input.target_external_id (others s.db) ≡ some t
        → laws.message_at input.source input.external_id s.db ≡ none
        → laws.message_at input.source input.external_id (others s.db) ≡ none
        → enabled_channels laws stored_world.db ≡ c ∷ cs
        → jobs_for (c ∷ cs) (laws.new_tasks message.message.id (ids (c ∷ cs)) stored_world.db)
          ≡ j ∷ js
        → ((create sv others input s).0 ≡ err e)
          × ((create sv others input s).1.jobs ≡ s.jobs ++ j ∷ [])
          × ((create sv others input s).1.db ≡ batch)
    first_lost c cs j js h h' k k' ch jb =
        let made = laws.new_tasks message.message.id (ids (c ∷ cs)) stored_world.db in
        let d =
          (create_notification_tasks sv.prisma message.message.id (ids (c ∷ cs))
            stored_world.db).1 in
        let (failed, jobs, db) =
          enqueue_all_refused (c ∷ cs) made (record stored_world { db = d }) j js jb in
        let same : d ≡ batch = ap batch_for (sym ch) in
        rw
          (
            new_lem sv laws others input s t h h' k k',
            batch_of sv laws message.message.id stored_world c cs ch,
          )
          (ground arith, ground arith, ground arith)

    -- Suppose the queues refuse every job while a new message is created, for which there would be
    -- a job to enqueue. The call throws the queue's error after one attempt to add a job, and leaves
    -- the message and its target stored, with a task for each enabled channel. Creating the message
    -- again succeeds and enqueues nothing: with queues that accept every job, and at any later
    -- time, as long as the message, its tasks and its target are kept and no further channel is
    -- enabled.
    pub create_lost :
        (c : NotificationChannel) (cs : List NotificationChannel) (j : Job) (js : List Job)
        → laws.target_at input.target_type input.target_external_id s.db ≡ some t
        → laws.target_at input.target_type input.target_external_id (others s.db) ≡ some t
        → laws.message_at input.source input.external_id s.db ≡ none
        → laws.message_at input.source input.external_id (others s.db) ≡ none
        → enabled_channels laws stored_world.db ≡ c ∷ cs
        → jobs_for (c ∷ cs) (laws.new_tasks message.message.id (ids (c ∷ cs)) stored_world.db)
          ≡ j ∷ js
        → (b : Bull R) → ((job : Job) (r : R) → (b.add job r).0 ≡ ok tt)
        → (s' : World D N R) → Kept laws input (create sv others input s).1.db s'.db
        → let first = create sv others input s in
          let later = create (record sv { bull = b }) others input s' in
          (first.0 ≡ err e)
          × (first.1.jobs ≡ s.jobs ++ j ∷ [])
          × Held laws input (to_dto message) first.1.db
          × (later.0 ≡ ok (to_dto message))
          × (later.1.jobs ≡ s'.jobs)
    create_lost c cs j js h h' k k' ch jb b accepts s' kept =
        let (failed, jobs, db) = first_lost c cs j js h h' k k' ch jb in
        let held = subst (Held laws input (to_dto message)) (sym db) (batch-Held h' k') in
        let held' =
          Held-Kept laws input (to_dto message) (create sv others input s).1.db s'.db kept held in
        let (done, none_new, events, messages) =
          again (record sv { bull = b }) laws accepts input others s' (to_dto message) held' in
        (failed, jobs, held, done, none_new)
