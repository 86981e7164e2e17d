-- ===== src/Dashboard/Counts/Tests.antt =====
-- The overview of a table of two messages.
use social_monitor.Prelude.{
  ℕ, ◌≡◌, ◌+◌, refl, text, Bool, true, ◌&&◌, leb, List, [], ◌∷◌, Option, none, some, length, filter,
}
use social_monitor.Core.{ok, api_data}
use social_monitor.Schema.{MessageSource, Message}
use social_monitor.Database.{Prisma, MessageWhere, DateRange}
use social_monitor.Fixtures.{offline}
use social_monitor.Dashboard.{DashboardOverview, dashboard_overview}
use social_monitor.Dashboard.Counts.{CountLaws, overview_adds_up, recent_of, of_source}

abbrev sample : MessageSource → ℕ → Message
sample source published_at = record {
  id = text "m";
  source = source;
  external_id = text "e";
  target_id = text "t";
  author_external_id = none;
  author_username = none;
  author_name = none;
  content = text "hi";
  url = none;
  published_at = published_at;
}

abbrev from : Option ℕ → ℕ → Bool
from none t = true
from (some start) t = leb start t

abbrev in_range : Option DateRange → ℕ → Bool
in_range none t = true
in_range (some r) t = from r.gte t

abbrev counted : MessageWhere → Message → Bool
counted f m = of_source f.source m.source && in_range f.published_at m.published_at

abbrev messages_table : Prisma (List Message)
messages_table = record (offline (List Message)) {
  message_count = λ f d. (ok (length (filter (counted f) d)), d);
  target_count = λ f d. (ok 2, d);
  task_count = λ f d. (ok 1, d);
}

abbrev laws : CountLaws messages_table
laws = record {
  messages = λ d. d;
  message_count_lem = λ start wanted d. refl;
  monitors = λ d. 2;
  target_count_lem = λ d. refl;
  sent_tasks = λ start d. 1;
  sent_count_lem = λ start d. refl;
  failed_tasks = λ start d. 1;
  failed_count_lem = λ start d. refl;
}

abbrev two : List Message
two = sample MessageSource.x 5 ∷ sample MessageSource.telegram 9 ∷ []

overview_adds_up_example :
    (o : DashboardOverview) × (dashboard_overview messages_table 4 two ≡ (ok (api_data o), two))
    × (o.today_messages ≡ recent_of 4 none two)
    × (o.x_messages ≡ recent_of 4 (some MessageSource.x) two)
    × (o.telegram_messages ≡ recent_of 4 (some MessageSource.telegram) two)
    × (o.today_messages ≡ o.x_messages + o.telegram_messages)
    × (o.monitors ≡ 2)
    × (o.notification_sent ≡ 1)
    × (o.notification_failed ≡ 1)
overview_adds_up_example = overview_adds_up messages_table laws 4 two
