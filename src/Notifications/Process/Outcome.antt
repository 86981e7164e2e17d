-- ===== src/Notifications/Process/Outcome.antt =====
-- What one attempt of `processTask` in notifications/notification.service.ts leaves behind.
mod Tests
use social_monitor.Prelude.{
  ℕ, ◌+◌, ◌≡◌, refl, Text, ◌==◌, ==_iff, ==_refl, Bool, true, false, List, [], ◌∷◌, ◌++◌, Option,
  none, some, arith, if◌then◌else◌, ◌≢◌,
}
use social_monitor.Core.{Exception, message_of, Result, ok, err}
use social_monitor.Schema.{NotificationTask, sent, failed}
use social_monitor.Net.{Io}
use social_monitor.Database.{NotificationTaskWithRelations, TaskPatch}
use social_monitor.World.{
  World, Services, SseEvent, SseEventData, notification_sent, notification_failed, world_now,
}
use social_monitor.Providers.{NotificationProvider, get_provider}
use social_monitor.Notifications.Process.{
  process_task, build_payload, task_not_found, start_patch, sent_patch, failed_patch,
}
use social_monitor.Notifications.Process.Laws.{TaskLaws, with_patch, patched}

-- The row of a task after an attempt whose `send` ended so, at the time `now`.
abbrev pub settled : Result (Unit {0}) → ℕ → NotificationTask → NotificationTask
settled (ok _) now t = record t {
  status = sent;
  attempts = t.attempts + 1;
  sent_at = some now;
  last_error = none;
}
settled (err e) now t = record t {
  status = failed;
  attempts = t.attempts + 1;
  last_error = some (message_of e);
}

-- The event that reports it.
abbrev pub report : Text → Result (Unit {0}) → NotificationTaskWithRelations → SseEventData
report id (ok _) t = notification_sent id t.channel.type (t.task.attempts + 1)
report id (err e) t = notification_failed id t.channel.type (t.task.attempts + 1) (message_of e)

module _ {D N R : Type 0} (sv : Services D N R) (providers : List (NotificationProvider (Io N)))
    (laws : TaskLaws sv.prisma) where
  -- A task that is not there: TASK_NOT_FOUND, and nothing is changed, sent or reported.
  pub process_task_missing :
      (id : Text) (s : World D N R)
      → laws.row id s.db ≡ none
      → process_task sv providers id s ≡ (err (task_not_found id), s)
  unfolding process_task
  process_task_missing id s h = ground (arith, laws.find_lem id s.db)

  -- The state of the database after both writes of an attempt.
  abbrev after : Text → TaskPatch → D → D
  after id patch d = (sv.prisma.task_update id patch d).1

  abbrev final_patch : Result (Unit {0}) → ℕ → TaskPatch
  final_patch (ok _) now = sent_patch now
  final_patch (err e) now = failed_patch e

  abbrev now_at : Io N → ℕ
  now_at io = sv.network.now io.net

  started :
      (id : Text) (d : D) (t : NotificationTaskWithRelations)
      → laws.row id d ≡ some t
      → laws.row id (after id start_patch d) ≡ some (with_patch start_patch t)
  started id d t h = rw (laws.update_row id start_patch d t id h, ==_refl id)

  process_task_lem :
      (id : Text) (s : World D N R) (t : NotificationTaskWithRelations)
      (p : NotificationProvider (Io N)) (r : Result (Unit {0})) (io' : Io N)
      → laws.row id s.db ≡ some t
      → get_provider providers t.channel.type ≡ ok p
      → p.send t.channel.config (build_payload t) s.io ≡ (r, io')
      → process_task sv providers id s ≡ (
        r,
        record s {
          db = after id (final_patch r (now_at io')) (after id start_patch s.db);
          io = io';
          events = s.events ++ (record { event = report id r t; timestamp = now_at io' } ∷ []);
        },
      )
  unfolding process_task
  process_task_lem id s t p (ok u) io' found known sends = ground (
    arith,
    laws.find_lem id s.db,
    laws.update_answer id start_patch s.db t found,
    laws.update_answer id (sent_patch (now_at io')) (after id start_patch s.db)
        (with_patch start_patch t) (started id s.db t found),
  )
  process_task_lem id s t p (err e) io' found known sends = ground (
    arith,
    laws.find_lem id s.db,
    laws.update_answer id start_patch s.db t found,
    laws.update_answer id (failed_patch e) (after id start_patch s.db) (with_patch start_patch t)
        (started id s.db t found),
  )

  abbrev both : Text → Result (Unit {0}) → ℕ → D → D
  both id r now d = after id (final_patch r now) (after id start_patch d)

  settled_row :
      (id : Text) (d : D) (t : NotificationTaskWithRelations) (r : Result (Unit {0})) (now : ℕ)
      → laws.row id d ≡ some t
      → laws.row id (both id r now d) ≡ some (record t { task = settled r now t.task })
  settled_row id d t (ok u) now h = ground (
    arith,
    laws.update_row id (sent_patch now) (after id start_patch d) (with_patch start_patch t) id
        (started id d t h),
    ==_refl id,
  )
  settled_row id d t (err e) now h = ground (
    arith,
    laws.update_row id (failed_patch e) (after id start_patch d) (with_patch start_patch t) id
        (started id d t h),
    ==_refl id,
  )

  other_row :
      (id : Text) (d : D) (t : NotificationTaskWithRelations) (r : Result (Unit {0})) (now : ℕ)
      (j : Text)
      → laws.row id d ≡ some t
      → id ≢ j
      → laws.row j (both id r now d) ≡ laws.row j d
  other_row id d t r now j h ne = ground (
    arith,
    laws.update_row id (final_patch r now) (after id start_patch d) (with_patch start_patch t) j
        (started id d t h),
    laws.update_row id start_patch d t j h,
    ==_iff id j,
  )

  -- An attempt at a stored task whose provider is known, whatever `send` comes to: the answer of
  -- `send` is the answer of the attempt, so the queue sees every failure; the row of the task ends
  -- SENT with the time and no error, or FAILED with the message of the error, in both cases with one
  -- more attempt; no other row changes; one event reports the outcome; nothing is enqueued.
  pub process_task_settles :
      (id : Text) (s : World D N R) (t : NotificationTaskWithRelations)
      (p : NotificationProvider (Io N)) (r : Result (Unit {0})) (io' : Io N)
      → laws.row id s.db ≡ some t
      → get_provider providers t.channel.type ≡ ok p
      → p.send t.channel.config (build_payload t) s.io ≡ (r, io')
      → let s' = (process_task sv providers id s).1 in
        ((process_task sv providers id s).0 ≡ r)
        × (laws.row id s'.db ≡ some (record t { task = settled r (now_at io') t.task }))
        × ((j : Text) → id ≢ j → laws.row j s'.db ≡ laws.row j s.db)
        × (s'.io ≡ io')
        × (s'.events ≡ s.events ++ (record { event = report id r t; timestamp = now_at io' } ∷ []))
        × (s'.jobs ≡ s.jobs)
  process_task_settles id s t p r io' found known sends =
      rw (process_task_lem id s t p r io' found known sends) (
        refl,
        settled_row id s.db t r (now_at io') found,
        (λ j ne. other_row id s.db t r (now_at io') j found ne),
        refl,
        refl,
        refl,
      )
