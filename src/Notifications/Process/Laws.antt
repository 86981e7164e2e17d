-- ===== src/Notifications/Process/Laws.antt =====
-- What the task runner relies on from the database client: reads by primary key give the row, and
-- an update by primary key changes that row alone and gives it back. The laws speak of a database
-- that answers.
use social_monitor.Prelude.{ℕ, ◌+◌, ◌≡◌, Text, ◌==◌, Option, none, some, if◌then◌else◌}
use social_monitor.Core.{ok, or_default}
use social_monitor.Schema.{NotificationTask}
use social_monitor.Database.{Prisma, NotificationTaskWithRelations, TaskPatch}

abbrev or_keep : Option ℕ → Option ℕ → Option ℕ
or_keep none old = old
or_keep (some v) old = some v

-- A row after an update input is written to it.
abbrev pub patched : TaskPatch → NotificationTask → NotificationTask
patched p t = record t {
  status = p.status;
  attempts = t.attempts + p.increment;
  sent_at = or_keep p.sent_at t.sent_at;
  last_error = or_default p.last_error t.last_error;
}

abbrev pub with_patch : TaskPatch → NotificationTaskWithRelations → NotificationTaskWithRelations
with_patch p t = record t { task = patched p t.task }

pub record TaskLaws {D : Type 0} (p : Prisma D) : Type 0 where
  pub row : Text → D → Option NotificationTaskWithRelations
  pub find_lem : (id : Text) (d : D) → p.task_find_unique id d ≡ (ok (row id d), d)
  pub update_answer :
      (id : Text) (patch : TaskPatch) (d : D) (t : NotificationTaskWithRelations)
      → row id d ≡ some t
      → (p.task_update id patch d).0 ≡ ok (patched patch t.task)
  pub update_row :
      (id : Text) (patch : TaskPatch) (d : D) (t : NotificationTaskWithRelations) (j : Text)
      → row id d ≡ some t
      → row j (p.task_update id patch d).1
        ≡ (if id == j then some (with_patch patch t) else row j d)
