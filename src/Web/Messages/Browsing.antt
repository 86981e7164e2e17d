-- ===== src/Web/Messages/Browsing.antt =====
-- Browsing the messages: the pages that the buttons of the page lead to, and what they show together.
mod Tests
use social_monitor.Prelude.{
  ℕ, zero, suc, ◌+◌, ◌-◌, ◌*◌, ◌/◌, ◌≤◌, ◌<◌, ◌≡◌, ◌⊎◌, refl, sym, ap, ◌∙◌, Text, Bool, true, false,
  ltb, leb, leb→le, List, [], ◌∷◌, ◌++◌, map, take, take_all, length, Option, none, some, arith,
  Bool-cases, inl, inr, if◌then◌else◌,
}
use social_monitor.Core.{Result, ok, err, ApiPaginatedResponse}
use social_monitor.Messages.Dto.{MessageDto}
use social_monitor.Monitors.Service.{MonitorDto}
use social_monitor.Database.{Prisma, MessageWithTarget}
use social_monitor.Paging.{size_or_default}
use social_monitor.Messages.Dto.{to_dto}
use social_monitor.Messages.Queries.{MessageQuery, message_where}
use social_monitor.Messages.Queries.Pages.{ListLaws, answers, list_pages, by_time, row_time}
use social_monitor.Messages.Queries.Newest.{
  untied, descending, descending-map, descending-newest_first, newest_first-Perm,
  length-newest_first,
}
use mathlib.Core.List.{Perm}
use mathlib.Core.List.Perm
use social_monitor.Web.Messages.{
  MessagesPage, Filters, initial, page_size, on_targets, on_load, on_loaded, set_filters, search,
  reset, total_pages, previous_page, next_page,
}

-- The number of pages is at least one, all items lie on them, and with fewer pages than that, unless
-- it is one, they do not.
pub total_pages_lem :
    (total : ℕ)
    → (1 ≤ total_pages total)
      × (total ≤ total_pages total * page_size)
      × ((total_pages total ≡ 1) ⊎ ((total_pages total - 1) * page_size < total))
unfolding total_pages
total_pages_lem total = elim (Bool-cases (ltb ((total + 19) / 20) 1)) [
  | inl e ↦
      let few : (total + 19) / 20 < 1 = ground arith in rw e (omega arith, omega arith, inl refl)
  | inr e ↦
      let many : 1 ≤ (total + 19) / 20 = ground arith in rw e (many, omega arith, inr (omega arith))
]

-- The runs of the page: its inputs and buttons, and the answers of the API, in any order.
pub data Reachable : MessagesPage → Type 0 where
  opened : Reachable initial
  targets_answered :
      (s : MessagesPage) (r : Result (ApiPaginatedResponse MonitorDto))
      → Reachable s
      → Reachable (on_targets r s)
  load_begun : (s : MessagesPage) → Reachable s → Reachable (on_load s)
  load_answered :
      (s : MessagesPage) (r : Result (ApiPaginatedResponse MessageDto))
      → Reachable s
      → Reachable (on_loaded r s)
  typed_filters : (s : MessagesPage) (f : Filters) → Reachable s → Reachable (set_filters f s)
  searched : (s : MessagesPage) → Reachable s → Reachable (search s)
  was_reset : (s : MessagesPage) → Reachable s → Reachable (reset s)
  went_back : (s : MessagesPage) → Reachable s → Reachable (previous_page s)
  went_on : (s : MessagesPage) → Reachable s → Reachable (next_page s)

-- An answer leaves the page number.
loaded_page :
    (r : Result (ApiPaginatedResponse MessageDto)) (s : MessagesPage)
    → (on_loaded r s).page ≡ s.page
unfolding on_loaded
loaded_page (ok r) s = refl
loaded_page (err e) s = refl

targets_page :
    (r : Result (ApiPaginatedResponse MonitorDto)) (s : MessagesPage)
    → (on_targets r s).page ≡ s.page
unfolding on_targets
targets_page (ok r) s = refl
targets_page (err e) s = refl

back_in_range : (s : MessagesPage) → 1 ≤ s.page → 1 ≤ (previous_page s).page
unfolding previous_page
back_in_range s h = elim (Bool-cases (leb s.page 1)) [
  | inl e ↦ rw e h
  | inr e ↦ let many : 1 < s.page = ground arith in rw e (omega arith)
]

on_in_range :
    (s : MessagesPage)
    → 1 ≤ s.page
    → (1 ≤ (next_page s).page)
      × (((next_page s).page ≡ s.page) ⊎ ((next_page s).page ≤ total_pages s.total))
unfolding next_page
on_in_range s h = elim (Bool-cases (leb (total_pages s.total) s.page)) [
  | inl e ↦ rw e (h, inl refl)
  | inr e ↦
      let more : s.page < total_pages s.total = ground arith in
      rw e (omega arith, inr (omega arith))
]

at_least_one : (t : MessagesPage) → Reachable t → 1 ≤ t.page
unfolding on_load search reset
at_least_one t opened = omega arith
at_least_one t (targets_answered u r k) = rw (targets_page r u) (at_least_one u k)
at_least_one t (load_begun u k) = at_least_one u k
at_least_one t (load_answered u r k) = rw (loaded_page r u) (at_least_one u k)
at_least_one t (typed_filters u f k) = at_least_one u k
at_least_one t (searched u k) = omega arith
at_least_one t (was_reset u k) = omega arith
at_least_one t (went_back u k) = back_in_range u (at_least_one u k)
at_least_one t (went_on u k) = (on_in_range u (at_least_one u k)).0

-- In every run the page number is at least one, as the API wants it, and the button to the next page
-- leaves the page or leads to one that the last total has.
pub Reachable-pages :
    (s : MessagesPage)
    → Reachable s
    → (1 ≤ s.page) × (((next_page s).page ≡ s.page) ⊎ ((next_page s).page ≤ total_pages s.total))
Reachable-pages s h = let low = at_least_one s h in (low, (on_in_range s low).1)

same_time : (m : MessageWithTarget) → (to_dto m).published_at ≡ row_time m
unfolding to_dto
same_time m = refl

module _ {D : Type 0} (p : Prisma D) (laws : ListLaws p) where
  -- Going through the pages that the page counts, against the API's `list`, where no two messages
  -- that match were published at one time: the messages shown are all that match, each as often as
  -- it is there, and they are strictly newest first, so that none is shown twice.
  pub browse_all :
      (q : MessageQuery) (d : D)
      → q.page_size ≡ some page_size
      → untied row_time (laws.matching (message_where q) d) ≡ true
      → let rows = laws.matching (message_where q) d in
        let shown = answers p laws q d (total_pages (length rows)) in
        Perm shown (map to_dto rows) × (descending (λ m. m.published_at) shown ≡ true)
  browse_all q d h distinct =
      let rows = laws.matching (message_where q) d in
      let ordered = by_time rows in
      let k = total_pages (length rows) in
      let size = ap (λ o. k * size_or_default o) h in
      let enough = (total_pages_lem (length rows)).1 in
      let fits : length ordered ≤ k * page_size = rw (length-newest_first row_time rows) enough in
      let shown =
        list_pages p laws q d k distinct
        ∙ ap (λ n. map to_dto (take n ordered)) size
        ∙ ap (map to_dto) (take_all (k * page_size) ordered fits) in
      (
        rw shown (Perm.map to_dto (newest_first-Perm row_time rows)),
        rw shown (
            descending-map row_time (λ m. m.published_at) to_dto same_time ordered
            ∙ descending-newest_first row_time rows distinct),
      )
