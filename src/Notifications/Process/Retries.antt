-- ===== src/Notifications/Process/Retries.antt =====
-- Any number of attempts at one task: the worker of queue/notification-worker.service.ts runs
-- `processTask` again after each failure, and other work goes on between the attempts.
mod Tests
use social_monitor.Prelude.{
  ℕ, zero, suc, ◌+◌, ◌<◌, ◌≡◌, refl, ap, ◌∙◌, ◌⊎◌, inl, inr, Text, Bool, true, false, List, Option,
  none, some, arith, if◌then◌else◌,
}
use social_monitor.Core.{Exception, is_not_found, Result, ok, err}
use social_monitor.Schema.{
  NotificationTask, NotificationStatus, NotificationChannelType, sent, failed,
}
use social_monitor.Net.{Io}
use social_monitor.Database.{NotificationTaskWithRelations}
use social_monitor.World.{World, Services, Job}
use social_monitor.Providers.{NotificationProvider, get_provider}
use social_monitor.Notifications.Process.{
  process_task, dispatch, process, build_payload, task_not_found,
}
use social_monitor.Notifications.Process.Laws.{TaskLaws}
use social_monitor.Notifications.Process.Outcome.{
  settled, process_task_settles, process_task_missing,
}

-- What `n` attempts may make of a task.
abbrev pub IsSettled : NotificationStatus → Type 0
IsSettled status = (status ≡ sent) ⊎ (status ≡ failed)

pub record Tried (n : ℕ) (t u : NotificationTaskWithRelations) : Type 0 where
  pub counted : u.task.attempts ≡ t.task.attempts + n
  pub ended : 0 < n → IsSettled u.task.status
  pub same_message : u.message ≡ t.message
  pub same_target : u.target ≡ t.target
  pub same_channel : u.channel ≡ t.channel

settled-Tried :
    (n : ℕ) (t u : NotificationTaskWithRelations) (r : Result (Unit {0})) (now : ℕ)
    → Tried n t u
    → Tried (suc n) t (record u { task = settled r now u.task })
settled-Tried n t u (ok _) now h = record {
  counted = omega arith;
  ended = λ _. inl refl;
  same_message = h.same_message;
  same_target = h.same_target;
  same_channel = h.same_channel;
}
settled-Tried n t u (err e) now h = record {
  counted = omega arith;
  ended = λ _. inr refl;
  same_message = h.same_message;
  same_target = h.same_target;
  same_channel = h.same_channel;
}

untried : (t : NotificationTaskWithRelations) → Tried 0 t t
untried t = record {
  counted = omega arith;
  ended = λ h. absurd (omega arith);
  same_message = refl;
  same_target = refl;
  same_channel = refl;
}

-- What `dispatch` makes of the answer of an attempt.
abbrev pub swallowed : Result (Unit {0}) → Result (Unit {0})
swallowed (ok u) = ok u
swallowed (err e) = if is_not_found e then err e else ok tt

module _ {D N R : Type 0} (sv : Services D N R) (providers : List (NotificationProvider (Io N)))
    (laws : TaskLaws sv.prisma) where
  -- The states that a task goes through: runs of its job, and steps of others that leave its row
  -- alone. The number counts the runs.
  pub data History (id : Text) (s : World D N R) : ℕ → World D N R → Type 0 where
    start : History id s 0 s
    run :
        {n : ℕ} {u v : World D N R}
        → History id s n u
        → (job : Job) → job.task_id ≡ id
        → (process sv providers job u).1 ≡ v
        → History id s (suc n) v
    other :
        {n : ℕ} {u v : World D N R}
        → History id s n u
        → laws.row id v.db ≡ laws.row id u.db
        → History id s n v

  module _
      (total : (type : NotificationChannelType)
        → (p : NotificationProvider (Io N)) × (get_provider providers type ≡ ok p)) where
    run_row :
        (id : Text) (s : World D N R) (t : NotificationTaskWithRelations)
        → laws.row id s.db ≡ some t
        → (r : Result (Unit {0})) × (now : ℕ) × (laws.row id (process_task sv providers id s).1.db
            ≡ some (record t { task = settled r now t.task }))
    run_row id s t h =
        let (p, known) = total t.channel.type in
        let answer = p.send t.channel.config (build_payload t) s.io in
        (
          answer.0,
          sv.network.now answer.1.net,
          (process_task_settles sv providers laws id s t p answer.0 answer.1 h known refl).1,
        )

    after_process :
        (id : Text) (u v : World D N R) (job : Job) (found : NotificationTaskWithRelations)
        → job.task_id ≡ id
        → (process sv providers job u).1 ≡ v
        → laws.row id (process_task sv providers id u).1.db ≡ some found
        → laws.row id v.db ≡ some found
    unfolding process
    after_process id u v job found e step row = rw (← step) (rw e row)

    -- Along any history of a stored task, with other work between its attempts: the row stays, its
    -- attempts grow by one for each run, its message, target and channel stay, and after a first
    -- run it is SENT or FAILED between the runs, never left PROCESSING.
    pub History-attempts :
        (id : Text) (s u : World D N R) (n : ℕ) (t : NotificationTaskWithRelations)
        → laws.row id s.db ≡ some t
        → History id s n u
        → (v : NotificationTaskWithRelations) × (laws.row id u.db ≡ some v) × Tried n t v
    History-attempts id s u n t h start = (t, h, untried t)
    History-attempts id s v n t h (run {n = m} {u = u} runs job e step) =
        let (found, row, tried) = History-attempts id s u m t h runs in
        let (r, now, row') = run_row id u found row in
        (
          record found { task = settled r now found.task },
          after_process id u v job _ e step row',
          settled-Tried m t found r now tried,
        )
    History-attempts id s v n t h (other {u = u} runs same) =
        let (found, row, tried) = History-attempts id s u n t h runs in (found, same ∙ row, tried)

  dispatch_of :
      (id : Text) (s s' : World D N R) (r : Result (Unit {0}))
      → process_task sv providers id s ≡ (r, s')
      → dispatch sv providers id s ≡ (swallowed r, s')
  unfolding dispatch
  dispatch_of id s s' (ok u) e = rw e
  dispatch_of id s s' (err x) e = ground arith

  -- `dispatch` leaves the state that the attempt leaves, with the row settled, and passes on no
  -- error but a NotFoundException: a missing task throws TASK_NOT_FOUND and changes nothing, and for
  -- a stored task the provider's error is swallowed after FAILED has been written.
  pub dispatch_swallows :
      (id : Text) (s : World D N R)
      → ((dispatch sv providers id s).1 ≡ (process_task sv providers id s).1)
        × ((dispatch sv providers id s).0 ≡ swallowed (process_task sv providers id s).0)
        × (laws.row id s.db ≡ none → dispatch sv providers id s ≡ (err (task_not_found id), s))
  dispatch_swallows id s =
      let answer = process_task sv providers id s in
      let e = dispatch_of id s answer.1 answer.0 refl in
      (
        ap (λ x. x.1) e,
        ap (λ x. x.0) e,
        λ h. dispatch_of id s s _ (process_task_missing sv providers laws id s h),
      )
