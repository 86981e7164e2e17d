-- ===== src/Web/Messages.antt =====
-- apps/web/app/messages/page.tsx: the page that searches the messages. The answers of the API come as
-- events.
mod Browsing
use social_monitor.Prelude.{
  ℕ, ◌+◌, ◌-◌, ◌/◌, Text, text, Bool, true, false, ltb, leb, List, [], ◌∷◌, ◌++◌, Option, none,
  some, if◌then◌else◌,
}
use social_monitor.Core.{Exception, Result, ok, err, message_of, ApiPaginatedResponse}
use social_monitor.Messages.Dto.{MessageDto}
use social_monitor.Monitors.Service.{MonitorDto}
use social_monitor.Web.Client.{Query, text_value, number_value, build_query}

pub record Filters : Type 0 where
  pub keyword : Text
  pub source : Text
  pub target_id : Text
  pub date_from : Text
  pub date_to : Text

abbrev pub no_filters : Filters
no_filters = record { keyword = []; source = []; target_id = []; date_from = []; date_to = [] }

pub record MessagesPage : Type 0 where
  pub messages : List MessageDto
  pub targets : List MonitorDto
  pub page : ℕ
  pub total : ℕ
  pub loading : Bool
  pub error : Option Text
  pub filters : Filters
  pub applied : Filters

abbrev pub initial : MessagesPage
initial = record {
  messages = [];
  targets = [];
  page = 1;
  total = 0;
  loading = true;
  error = none;
  filters = no_filters;
  applied = no_filters;
}

abbrev pub page_size : ℕ
page_size = 20

-- The monitors of the filter.
unfoldable pub on_targets : Result (ApiPaginatedResponse MonitorDto) → MessagesPage → MessagesPage
on_targets (ok r) s = record s { targets = r.payload }
on_targets (err e) s = record s { targets = [] }

unfoldable pub load_query : MessagesPage → Query
load_query s =
    (text "page", some (number_value s.page))
    ∷ (text "pageSize", some (number_value page_size))
    ∷ (text "keyword", some (text_value s.applied.keyword))
    ∷ (text "source", some (text_value s.applied.source))
    ∷ (text "targetId", some (text_value s.applied.target_id))
    ∷ (text "dateFrom", some (text_value s.applied.date_from))
    ∷ (text "dateTo", some (text_value s.applied.date_to))
    ∷ []

-- The path that a load asks for, over the encoding of query strings.
unfoldable pub load_path : (encode : Text → Text) → MessagesPage → Text
unfolding build_query load_query
load_path encode s = text "/messages" ++ build_query encode (load_query s)

unfoldable pub on_load : MessagesPage → MessagesPage
on_load s = record s { loading = true }

unfoldable pub on_loaded : Result (ApiPaginatedResponse MessageDto) → MessagesPage → MessagesPage
on_loaded (ok r) s = record s {
  messages = r.payload;
  total = r.meta.total;
  error = none;
  loading = false;
}
on_loaded (err e) s = record s { error = some (message_of e); loading = false }

-- An input of the form.
abbrev pub set_filters : Filters → MessagesPage → MessagesPage
set_filters filters s = record s { filters = filters }

unfoldable pub search : MessagesPage → MessagesPage
search s = record s { page = 1; applied = s.filters }

unfoldable pub reset : MessagesPage → MessagesPage
reset s = record s { filters = no_filters; applied = no_filters; page = 1 }

-- `Math.max(1, Math.ceil(total / pageSize))`
unfoldable pub total_pages : ℕ → ℕ
total_pages total = let n = (total + 19) / 20 in if ltb n 1 then 1 else n

-- The buttons, which are disabled at the ends.
unfoldable pub previous_page : MessagesPage → MessagesPage
previous_page s = if leb s.page 1 then s else record s { page = s.page - 1 }

unfoldable pub next_page : MessagesPage → MessagesPage
unfolding total_pages
next_page s = if leb (total_pages s.total) s.page then s else record s { page = s.page + 1 }
