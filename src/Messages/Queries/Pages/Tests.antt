-- ===== src/Messages/Queries/Pages/Tests.antt =====
-- Listing messages at concrete input.
use social_monitor.Prelude.{◌≡◌, refl, ◌*◌, ◌≤◌, map, none, some, length, take}
use social_monitor.Core.{ok, api_paginated}
use social_monitor.Paging.{page_of}
use social_monitor.Messages.Dto.{to_dto}
use social_monitor.Messages.Queries.{MessageQuery, list}
use social_monitor.Messages.Queries.Pages.{list_page, list_pages, answers, by_time}
use social_monitor.Messages.Queries.Samples.{table, table_list_laws, rows}

abbrev second_page : MessageQuery
second_page = record {
  page = some 2;
  page_size = some 2;
  source = none;
  target_id = none;
  keyword = none;
  date_from = none;
  date_to = none;
}

list_page_run :
    (list table second_page rows ≡ (
      ok (
          api_paginated
            (map to_dto (page_of 2 2 (by_time rows)))
            (record { page = 2; page_size = 2; total = 3 })),
      rows,
    ))
    × (length (map to_dto (page_of 2 2 (by_time rows))) ≤ 2)
list_page_run = list_page table table_list_laws second_page rows refl

list_pages_run :
    answers table table_list_laws second_page rows 2 ≡ map to_dto (take (2 * 2) (by_time rows))
list_pages_run = list_pages table table_list_laws second_page rows 2 refl
