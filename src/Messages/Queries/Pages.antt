-- ===== src/Messages/Queries/Pages.antt =====
-- The pages that `list` of messages/message.service.ts answers.
mod Tests
use social_monitor.Prelude.{
  ℕ, zero, suc, ◌-◌, ◌*◌, ◌+◌, ◌≤◌, ◌≡◌, true, refl, sym, ap, ◌∙◌, Text, List, [], ◌∷◌, ◌++◌, map,
  Option, none, some, arith, length, take, drop, length-take, length-map,
}
use mathlib.Core.Path.{ap₂}
use mathlib.Core.List.{map-append}
use social_monitor.Core.{Result, ok, err, api_paginated, Action, ApiPaginatedResponse}
use social_monitor.Database.{Prisma, FindMany, MessageWhere, MessageWithTarget, published_at_desc}
use social_monitor.Messages.Queries.Newest.{newest_first, untied, length-newest_first}
use social_monitor.Paging.{page_of, pages, pages-take, page_or_first, size_or_default}
use social_monitor.Messages.Dto.{MessageDto, to_dto}
use social_monitor.Messages.Queries.{MessageQuery, message_where, list}

abbrev pub row_time : MessageWithTarget → ℕ
row_time m = m.message.published_at

-- The rows ordered by `publishedAt: "desc"`.
abbrev pub by_time : List MessageWithTarget → List MessageWithTarget
by_time = newest_first row_time

-- What a list query relies on: where no two matching rows are of one time, `findMany` gives the part
-- that `skip` and `take` cut from the matching rows ordered by it; and `count` gives the number of
-- the matching rows. Between rows of one time the order names none, and the database is free to give
-- another one for each page.
pub record ListLaws {D : Type 0} (p : Prisma D) : Type 0 where
  pub matching : MessageWhere → D → List MessageWithTarget
  pub find_lem :
      (f : MessageWhere) (skip n : ℕ) (d : D)
      → untied row_time (matching f d) ≡ true
      → p.message_find_many
          (record { filter = f; order_by = published_at_desc; skip = skip; take = some n })
          d
        ≡ (ok (take n (drop skip (by_time (matching f d)))), d)
  pub count_lem : (f : MessageWhere) (d : D) → p.message_count f d ≡ (ok (length (matching f d)), d)

module _ {D : Type 0} (p : Prisma D) (laws : ListLaws p) (q : MessageQuery) (d : D) where
  -- Where no two matching rows are of one time: listing reads only, and answers the page asked for: the DTOs of the rows that match, newest
  -- first, from `(page - 1) * pageSize` on and at most `pageSize` of them, with the number of all
  -- that match; a query without `page` or `pageSize` asks for page 1, of 20.
  pub list_page :
      untied row_time (laws.matching (message_where q) d) ≡ true
      → let page = page_or_first q.page in
        let size = size_or_default q.page_size in
        let rows = by_time (laws.matching (message_where q) d) in
        (list p q d ≡ (
          ok (
              api_paginated
                (map to_dto (page_of page size rows))
                (record { page = page; page_size = size; total = length rows })),
          d,
        ))
        × (length (map to_dto (page_of page size rows)) ≤ size)
  unfolding list
  list_page h =
      let page = page_or_first q.page in
      let size = size_or_default q.page_size in
      let rows = by_time (laws.matching (message_where q) d) in
      (
        rw (
          laws.find_lem (message_where q) ((page - 1) * size) size d h,
          laws.count_lem (message_where q) d,
          length-newest_first row_time (laws.matching (message_where q) d),
        ),
        rw
            (
              length-map to_dto (page_of page size rows),
              length-take size (drop ((page - 1) * size) rows),
            )
            (omega arith),
      )

abbrev payload_of : Result (ApiPaginatedResponse MessageDto) → List MessageDto
payload_of (ok r) = r.payload
payload_of (err e) = []

module _ {D : Type 0} (p : Prisma D) (laws : ListLaws p) (q : MessageQuery) (d : D) where
  -- The items of the first `k` pages, asked for one after the other.
  abbrev pub answers : ℕ → List MessageDto
  answers zero = []
  answers (suc k) = answers k ++ payload_of (list p (record q { page = some (suc k) }) d).0

  page_answer :
      (k : ℕ)
      → untied row_time (laws.matching (message_where q) d) ≡ true
      → payload_of (list p (record q { page = some k }) d).0
        ≡ map to_dto
            (page_of k (size_or_default q.page_size) (by_time (laws.matching (message_where q) d)))
  unfolding message_where
  page_answer k h = ap (λ r. payload_of r.0) (list_page p laws (record q { page = some k }) d h).0

  -- Where no two matching rows are of one time: asking for page after page gives the matching rows from the newest on, with none skipped and
  -- none given twice: the first `k` pages hold the first `k * pageSize` rows.
  pub list_pages :
      (k : ℕ)
      → untied row_time (laws.matching (message_where q) d) ≡ true
      → answers k
        ≡ map to_dto
            (take (k * size_or_default q.page_size) (by_time (laws.matching (message_where q) d)))
  list_pages k h = in_pages k ∙ ap (map to_dto) (pages-take k _ rows)
    where
      rows : List MessageWithTarget
      rows = by_time (laws.matching (message_where q) d)

      in_pages : (n : ℕ) → answers n ≡ map to_dto (pages n (size_or_default q.page_size) rows)
      in_pages zero = refl
      in_pages (suc n) =
          ap₂ (λ xs ys. xs ++ ys) (in_pages n) (page_answer (suc n) h)
          ∙ sym (map-append to_dto (pages n (size_or_default q.page_size) rows) _)
