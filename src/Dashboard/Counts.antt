-- ===== src/Dashboard/Counts.antt =====
-- The counts of dashboard/dashboard.service.ts against the rows that they count.
mod Tests
use social_monitor.Prelude.{
  ℕ, suc, ◌+◌, ◌≡◌, ◌⊎◌, inl, inr, refl, ap, Bool, true, false, ◌&&◌, List, [], ◌∷◌, Option, none,
  some, arith, leb, length, filter, if◌then◌else◌,
}
use social_monitor.Core.{ok, ApiSuccessResponse, api_data}
use social_monitor.Schema.{
  MessageSource, Message, MonitorTarget, NotificationTask, NotificationStatus, sent, failed,
}
use social_monitor.Database.{Prisma}
use social_monitor.Dashboard.{
  DashboardOverview, messages_since, enabled_monitors, sent_since, failed_since, dashboard_overview,
  count_messages, count_monitors, count_dashboard_tasks,
}

abbrev same_source : MessageSource → MessageSource → Bool
same_source MessageSource.x MessageSource.x = true
same_source MessageSource.telegram MessageSource.telegram = true
same_source _ _ = false

abbrev pub of_source : Option MessageSource → MessageSource → Bool
of_source none source = true
of_source (some wanted) source = same_source wanted source

-- A message that the query for the messages since `start` stands for.
abbrev pub is_recent : ℕ → Option MessageSource → Message → Bool
is_recent start wanted m = of_source wanted m.source && leb start m.published_at

-- What the overview relies on: counting reads only, the count of messages is the number of rows that
-- the query stands for, and each other query has its number, under the `where` that is written out.
pub record CountLaws {D : Type 0} (p : Prisma D) : Type 0 where
  pub messages : D → List Message
  pub message_count_lem :
      (start : ℕ) (wanted : Option MessageSource) (d : D)
      → p.message_count
          (record {
            source = wanted;
            target_id = none;
            or = [];
            published_at = some (record { gte = some start; lte = none });
          })
          d
        ≡ (ok (length (filter (is_recent start wanted) (messages d))), d)
  pub monitors : D → ℕ
  pub target_count_lem :
      (d : D)
      → p.target_count (record { type = none; enabled = some true; or = [] }) d
        ≡ (ok (monitors d), d)
  pub sent_tasks : ℕ → D → ℕ
  pub sent_count_lem :
      (start : ℕ) (d : D)
      → p.task_count
          (record {
            status = some sent;
            channel_id = none;
            message_id = none;
            created_at = none;
            sent_at = some (record { gte = some start; lte = none });
          })
          d
        ≡ (ok (sent_tasks start d), d)
  pub failed_tasks : ℕ → D → ℕ
  pub failed_count_lem :
      (start : ℕ) (d : D)
      → p.task_count
          (record {
            status = some failed;
            channel_id = none;
            message_id = none;
            created_at = some (record { gte = some start; lte = none });
            sent_at = none;
          })
          d
        ≡ (ok (failed_tasks start d), d)

abbrev pub recent_of : ℕ → Option MessageSource → List Message → ℕ
recent_of start wanted rows = length (filter (is_recent start wanted) rows)

-- A source is one of the two.
one_source :
    (s : MessageSource)
    → ((same_source MessageSource.x s ≡ true) × (same_source MessageSource.telegram s ≡ false))
      ⊎ ((same_source MessageSource.x s ≡ false) × (same_source MessageSource.telegram s ≡ true))
one_source MessageSource.x = inl (refl, refl)
one_source MessageSource.telegram = inr (refl, refl)

partition :
    (start : ℕ) (rows : List Message)
    → recent_of start none rows
      ≡ recent_of start (some MessageSource.x) rows
        + recent_of start (some MessageSource.telegram) rows
partition start [] = refl
partition start (m ∷ rest) = ground (arith, one_source m.source, partition start rest)

module _ {D : Type 0} (p : Prisma D) where
  -- The overview reads only. Its counts are the messages published since the start of the day, of
  -- all and of each source, of which the first is the sum of the other two; the enabled targets; the
  -- sent tasks by the time of sending; and the failed tasks by the time of their making.
  pub overview_adds_up :
      (laws : CountLaws p) (start : ℕ) (d : D)
      → (o : DashboardOverview) × (dashboard_overview p start d ≡ (ok (api_data o), d))
        × (o.today_messages ≡ recent_of start none (laws.messages d))
        × (o.x_messages ≡ recent_of start (some MessageSource.x) (laws.messages d))
        × (o.telegram_messages ≡ recent_of start (some MessageSource.telegram) (laws.messages d))
        × (o.today_messages ≡ o.x_messages + o.telegram_messages)
        × (o.monitors ≡ laws.monitors d)
        × (o.notification_sent ≡ laws.sent_tasks start d)
        × (o.notification_failed ≡ laws.failed_tasks start d)
  unfolding dashboard_overview count_messages count_monitors count_dashboard_tasks
  overview_adds_up laws start d = (
    _,
    rw
        (
          laws.message_count_lem start none d,
          laws.message_count_lem start (some MessageSource.x) d,
          laws.message_count_lem start (some MessageSource.telegram) d,
          laws.target_count_lem d,
          laws.sent_count_lem start d,
          laws.failed_count_lem start d,
        )
        refl,
    refl,
    refl,
    refl,
    partition start (laws.messages d),
    refl,
    refl,
    refl,
  )
