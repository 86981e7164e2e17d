-- ===== src/Web/Messages/Browsing/Tests.antt =====
-- Browsing a table of three messages.
use social_monitor.Prelude.{◌≡◌, ◌⊎◌, ◌≤◌, ◌<◌, ◌*◌, ◌-◌, refl, map, true, none, some, length}
use social_monitor.Core.{ok}
use social_monitor.Messages.Dto.{to_dto}
use social_monitor.Messages.Queries.{MessageQuery}
use social_monitor.Messages.Queries.Pages.{answers}
use social_monitor.Messages.Queries.Samples.{table, table_list_laws, rows}
use social_monitor.Messages.Queries.Newest.{descending}
use mathlib.Core.List.{Perm}
use social_monitor.Web.Messages.{
  MessagesPage, initial, page_size, total_pages, next_page, on_loaded,
}
use social_monitor.Web.Messages.Browsing.{
  Reachable, opened, load_answered, went_on, Reachable-pages, total_pages_lem, browse_all,
}

abbrev all_messages : MessageQuery
all_messages = record {
  page = none;
  page_size = some page_size;
  source = none;
  target_id = none;
  keyword = none;
  date_from = none;
  date_to = none;
}

browse_all_example :
    let shown = answers table table_list_laws all_messages rows (total_pages (length rows)) in
    Perm shown (map to_dto rows) × (descending (λ m. m.published_at) shown ≡ true)
browse_all_example = browse_all table table_list_laws all_messages rows refl refl

total_pages_lem_run :
    (1 ≤ total_pages 41)
    × (41 ≤ total_pages 41 * page_size)
    × ((total_pages 41 ≡ 1) ⊎ ((total_pages 41 - 1) * page_size < 41))
total_pages_lem_run = total_pages_lem 41

abbrev loaded : MessagesPage
loaded =
    on_loaded
      (ok (record {
        payload = map to_dto rows;
        meta = record { page = 1; page_size = 20; total = 41 };
      }))
      initial

abbrev second : MessagesPage
second = next_page loaded

second-Reachable : Reachable second
second-Reachable = went_on loaded (load_answered initial _ opened)

Reachable-pages_example :
    (1 ≤ second.page)
    × (((next_page second).page ≡ second.page)
        ⊎ ((next_page second).page ≤ total_pages second.total))
Reachable-pages_example = Reachable-pages second second-Reachable
