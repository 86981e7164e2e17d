-- ===== src/Notifications/Listing/Pages.antt =====
-- The pages that `listTasks` of notifications/notification.service.ts answers.
mod Tests
use social_monitor.Prelude.{
  ℕ, ◌-◌, ◌*◌, ◌≤◌, ◌≡◌, refl, List, [], ◌∷◌, map, Option, none, some, arith, Bool, true, leb,
  length, take, drop, length-take, length-map,
}
use social_monitor.Core.{ok, api_paginated, Action}
use social_monitor.Database.{
  Prisma, FindMany, TaskWhere, NotificationTaskWithRelations, created_at_desc,
}
use social_monitor.Paging.{page_of, page_or_first, size_or_default}
use social_monitor.Notifications.Listing.{TaskQuery, TaskDto, task_where, to_task_dto, list_tasks}

-- What a list query relies on: `findMany` gives the part that `skip` and `take` cut from the
-- matching rows in their order, and `count` the number of them.
pub record TaskListLaws {D : Type 0} (p : Prisma D) : Type 0 where
  pub matching : TaskWhere → D → List NotificationTaskWithRelations
  pub find_lem :
      (f : TaskWhere) (skip n : ℕ) (d : D)
      → p.task_find_many
          (record { filter = f; order_by = created_at_desc; skip = skip; take = some n })
          d
        ≡ (ok (take n (drop skip (matching f d))), d)
  pub count_lem : (f : TaskWhere) (d : D) → p.task_count f d ≡ (ok (length (matching f d)), d)

-- The content of every item is within the bound.
abbrev pub Within : ℕ → List TaskDto → Type 0
Within n [] = Unit {0}
Within n (t ∷ ts) = (length t.message.content ≤ n) × Within n ts

to_task_dto-Within : (ts : List NotificationTaskWithRelations) → Within 120 (map to_task_dto ts)
unfolding to_task_dto
to_task_dto-Within [] = tt
to_task_dto-Within (t ∷ ts) =
    (rw (length-take 120 t.message.content) (omega arith), to_task_dto-Within ts)

-- Listing tasks reads only, and answers the page asked for: the rows that match, newest first, from
-- `(page - 1) * pageSize` on and at most `pageSize` of them, each with at most 120 code units of
-- its message's content, and the number of all that match.
pub list_tasks_page :
    {D : Type 0} (p : Prisma D) (laws : TaskListLaws p) (q : TaskQuery) (d : D)
    → let page = page_or_first q.page in
      let size = size_or_default q.page_size in
      let rows = laws.matching (task_where q) d in
      let items = map to_task_dto (page_of page size rows) in
      (list_tasks p q d ≡ (
        ok (api_paginated items (record { page = page; page_size = size; total = length rows })),
        d,
      ))
      × (length items ≤ size)
      × Within 120 items
unfolding list_tasks
list_tasks_page p laws q d =
    let page = page_or_first q.page in
    let size = size_or_default q.page_size in
    let rows = laws.matching (task_where q) d in
    (
      rw (laws.find_lem (task_where q) ((page - 1) * size) size d, laws.count_lem (task_where q) d)
          refl,
      rw
          (
            length-map to_task_dto (page_of page size rows),
            length-take size (drop ((page - 1) * size) rows),
          )
          (omega arith),
      to_task_dto-Within (page_of page size rows),
    )
