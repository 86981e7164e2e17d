-- ===== src/Notifications/Listing/Pages/Tests.antt =====
-- Listing tasks at concrete input.
use social_monitor.Prelude.{
  ◌≡◌, refl, ◌≤◌, ℕ, List, [], ◌∷◌, map, Option, none, some, length, take, drop,
}
use social_monitor.Core.{ok, api_paginated}
use social_monitor.Database.{Prisma, NotificationTaskWithRelations}
use social_monitor.Fixtures.{offline}
use social_monitor.Paging.{page_of}
use social_monitor.Notifications.Process.Samples.{
  group_target, group_message, telegram_channel, first_task,
}
use social_monitor.Notifications.Listing.{TaskQuery, to_task_dto, list_tasks}
use social_monitor.Notifications.Listing.Pages.{TaskListLaws, list_tasks_page, Within}

abbrev Rows : Type 0
Rows = List NotificationTaskWithRelations

abbrev cut : ℕ → Option ℕ → Rows → Rows
cut skip none rows = drop skip rows
cut skip (some n) rows = take n (drop skip rows)

-- A table whose every row matches.
abbrev table : Prisma Rows
table = record (offline Rows) {
  task_find_many = λ args rows. (ok (cut args.skip args.take rows), rows);
  task_count = λ f rows. (ok (length rows), rows);
}

abbrev table_task_laws : TaskListLaws table
table_task_laws = record {
  matching = λ f rows. rows;
  find_lem = λ f skip n rows. refl;
  count_lem = λ f rows. refl;
}

abbrev row : NotificationTaskWithRelations
row = record {
  task = first_task;
  message = group_message;
  target = group_target;
  channel = telegram_channel;
}

abbrev rows : Rows
rows = row ∷ row ∷ row ∷ []

abbrev second_page : TaskQuery
second_page = record {
  page = some 2;
  page_size = some 2;
  status = none;
  channel_id = none;
  date_from = none;
  date_to = none;
}

list_tasks_page_run :
    (list_tasks table second_page rows ≡ (
      ok (
          api_paginated
            (map to_task_dto (page_of 2 2 rows))
            (record { page = 2; page_size = 2; total = 3 })),
      rows,
    ))
    × (length (map to_task_dto (page_of 2 2 rows)) ≤ 2)
    × Within 120 (map to_task_dto (page_of 2 2 rows))
list_tasks_page_run = list_tasks_page table table_task_laws second_page rows
