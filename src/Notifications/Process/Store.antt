-- ===== src/Notifications/Process/Store.antt =====
-- A list of rows that meets the laws of the task runner's database client, for the tests.
use social_monitor.Prelude.{
  ◌≡◌, refl, ap, Text, text, ◌==◌, ==_iff, List, [], ◌∷◌, Option, none, some, arith, if◌then◌else◌,
}
use social_monitor.Core.{known_request, Result, ok, err}
use social_monitor.Schema.{NotificationTask}
use social_monitor.Database.{Prisma, NotificationTaskWithRelations, TaskPatch}
use social_monitor.Fixtures.{offline}
use social_monitor.Notifications.Process.Laws.{TaskLaws, with_patch, patched}

abbrev pub Rows : Type 0
Rows = List (Text × NotificationTaskWithRelations)

unfoldable pub row_in : Text → Rows → Option NotificationTaskWithRelations
row_in id [] = none
row_in id ((k, t) ∷ rows) = if k == id then some t else row_in id rows

unfoldable pub write_row : Text → TaskPatch → Rows → Rows
write_row id patch [] = []
write_row id patch ((k, t) ∷ rows) =
    let rest = write_row id patch rows in
    if k == id then (k, with_patch patch t) ∷ rows else (k, t) ∷ rest

abbrev answer_of : TaskPatch → Option NotificationTaskWithRelations → Result NotificationTask
answer_of patch none = err (known_request (text "P2025") (text "Record to update not found."))
answer_of patch (some t) = ok (patched patch t.task)

abbrev pub task_store : Prisma Rows
task_store = record (offline Rows) {
  task_find_unique = λ id d. (ok (row_in id d), d);
  task_update = λ id patch d. (answer_of patch (row_in id d), write_row id patch d);
}

pub write_row_lem :
    (id : Text) (patch : TaskPatch) (d : Rows) (t : NotificationTaskWithRelations) (j : Text)
    → row_in id d ≡ some t
    → row_in j (write_row id patch d) ≡ (if id == j then some (with_patch patch t) else row_in j d)
unfolding row_in write_row
write_row_lem id patch [] t j h = ground arith
write_row_lem id patch ((k, r) ∷ rows) t j h =
    ground (arith, ==_iff k id, ==_iff k j, ==_iff id j, write_row_lem id patch rows t j)

abbrev pub task_store-laws : TaskLaws task_store
task_store-laws = record {
  row = row_in;
  find_lem = λ id d. refl;
  update_answer = λ id patch d t h. ap (answer_of patch) h;
  update_row = write_row_lem;
}
