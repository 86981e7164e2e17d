-- ===== src/Web/Notifications.antt =====
-- apps/web/app/notifications/page.tsx: the page of the notification tasks.
use social_monitor.Prelude.{
  ℕ, ◌+◌, ◌-◌, Text, text, Bool, true, false, leb, List, [], ◌∷◌, ◌++◌, Option, none, some,
  if◌then◌else◌,
}
use social_monitor.Core.{Result, ok, err, message_of, ApiPaginatedResponse}
use social_monitor.Notifications.Listing.{TaskDto}
use social_monitor.Web.Client.{Query, text_value, number_value, build_query}
use social_monitor.Web.Messages.{page_size, total_pages}

pub record NotificationsPage : Type 0 where
  pub tasks : List TaskDto
  pub status : Text
  pub page : ℕ
  pub total : ℕ
  pub loading : Bool
  pub error : Option Text

abbrev pub initial : NotificationsPage
initial = record { tasks = []; status = []; page = 1; total = 0; loading = true; error = none }

unfoldable pub tasks_query : NotificationsPage → Query
tasks_query s =
    (text "page", some (number_value s.page))
    ∷ (text "pageSize", some (number_value page_size))
    ∷ (text "status", some (text_value s.status))
    ∷ []

unfoldable pub tasks_path : (encode : Text → Text) → NotificationsPage → Text
unfolding build_query tasks_query
tasks_path encode s = text "/notifications/tasks" ++ build_query encode (tasks_query s)

unfoldable pub load_tasks : NotificationsPage → NotificationsPage
load_tasks s = record s { loading = true }

unfoldable pub tasks_loaded :
    Result (ApiPaginatedResponse TaskDto) → NotificationsPage → NotificationsPage
tasks_loaded (ok r) s = record s {
  tasks = r.payload;
  total = r.meta.total;
  error = none;
  loading = false;
}
tasks_loaded (err e) s = record s { error = some (message_of e); loading = false }

unfoldable pub choose_status : Text → NotificationsPage → NotificationsPage
choose_status status s = record s { status = status; page = 1 }

-- The buttons, over the same number of pages as those of the messages.
unfoldable pub previous_tasks : NotificationsPage → NotificationsPage
previous_tasks s = if leb s.page 1 then s else record s { page = s.page - 1 }

unfoldable pub next_tasks : NotificationsPage → NotificationsPage
unfolding total_pages
next_tasks s = if leb (total_pages s.total) s.page then s else record s { page = s.page + 1 }
