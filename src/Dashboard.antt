-- ===== src/Dashboard.antt =====
-- dashboard/dashboard.service.ts and its repository: six counts. The start of the day is a parameter,
-- since it goes by the server's time zone.
pub mod Counts
use social_monitor.Prelude.{ℕ, true, [], Option, none, some}
use social_monitor.Core.{Action, ◌>>=◌, continue, return, ApiSuccessResponse, api_data}
use social_monitor.Schema.{MessageSource, NotificationStatus, sent, failed}
use social_monitor.Schema
use social_monitor.Database.{Prisma, MessageWhere, TargetWhere, TaskWhere, DateRange}

pub record DashboardOverview : Type 0 where
  pub today_messages : ℕ
  pub x_messages : ℕ
  pub telegram_messages : ℕ
  pub monitors : ℕ
  pub notification_sent : ℕ
  pub notification_failed : ℕ

-- `{ gte: start }`
abbrev pub since : ℕ → Option DateRange
since start = some (record { gte = some start; lte = none })

abbrev pub messages_since : ℕ → Option MessageSource → MessageWhere
messages_since start source = record {
  source = source;
  target_id = none;
  or = [];
  published_at = since start;
}

abbrev pub enabled_monitors : TargetWhere
enabled_monitors = record { type = none; enabled = some true; or = [] }

abbrev pub sent_since : ℕ → TaskWhere
sent_since start = record {
  status = some sent;
  channel_id = none;
  message_id = none;
  created_at = none;
  sent_at = since start;
}

abbrev pub failed_since : ℕ → TaskWhere
failed_since start = record {
  status = some failed;
  channel_id = none;
  message_id = none;
  created_at = since start;
  sent_at = none;
}

module _ {D : Type 0} (p : Prisma D) where
  unfoldable pub count_messages : MessageWhere → Action D ℕ
  count_messages filter = p.message_count filter

  unfoldable pub count_monitors : TargetWhere → Action D ℕ
  count_monitors filter = p.target_count filter

  unfoldable pub count_dashboard_tasks : TaskWhere → Action D ℕ
  count_dashboard_tasks filter = p.task_count filter

  unfoldable pub dashboard_overview : (start : ℕ) → Action D (ApiSuccessResponse DashboardOverview)
  unfolding count_messages count_monitors count_dashboard_tasks
  dashboard_overview start = do
    today ← count_messages (messages_since start none)
    x ← count_messages (messages_since start (some Schema.MessageSource.x))
    telegram ← count_messages (messages_since start (some Schema.MessageSource.telegram))
    monitors ← count_monitors enabled_monitors
    sent_count ← count_dashboard_tasks (sent_since start)
    failed_count ← count_dashboard_tasks (failed_since start)
    return (
        api_data (record {
          today_messages = today;
          x_messages = x;
          telegram_messages = telegram;
          monitors = monitors;
          notification_sent = sent_count;
          notification_failed = failed_count;
        }))
