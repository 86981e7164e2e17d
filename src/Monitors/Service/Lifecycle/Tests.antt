-- ===== src/Monitors/Service/Lifecycle/Tests.antt =====
-- The life of a monitor at concrete input.
use social_monitor.Prelude.{◌≡◌, refl, text, trim, true, ◌==◌, none, some}
use social_monitor.Core.{ok, err, api_data}
use social_monitor.Schema.{tg_channel, MonitorTarget}
use social_monitor.Database.{TargetData}
use social_monitor.Monitors.Normalize.{CreateMonitor, normalize_create}
use social_monitor.Monitors.Normalize.Required.{row_of}
use social_monitor.Monitors.Service.{
  create, find_one, check, remove, to_dto, monitor_exists, monitor_not_found,
}
use social_monitor.Monitors.Service.Lifecycle.{created_monitor, removed_monitor}
use social_monitor.Monitors.Service.Table.{table, table_laws, fresh_id, look_up}
use social_monitor.Database

abbrev news : CreateMonitor
news = record {
  type = tg_channel;
  name = text " News ";
  username = none;
  external_id = some (text "-100");
}

abbrev news_data : TargetData
news_data = record {
  type = tg_channel;
  name = text "News";
  username = none;
  external_id = text "-100";
}

abbrev news_row : MonitorTarget
news_row = row_of fresh_id news_data

news_data_lem : normalize_create news ≡ ok news_data
unfolding normalize_create trim
news_data_lem = refl

news_row_lem : look_up (Database.TargetKey.by_id fresh_id) (some news_row) ≡ some news_row
unfolding ◌==◌
news_row_lem = refl

created_monitor_run :
    (create table news none ≡ (ok (api_data (to_dto news_row)), some news_row))
    × (find_one table fresh_id (some news_row) ≡ (ok (api_data (to_dto news_row)), some news_row))
    × (check table fresh_id (some news_row)
        ≡ (ok (api_data (record { valid = true; name = trim news.name })), some news_row))
    × (create table news (some news_row) ≡ (err monitor_exists, some news_row))
created_monitor_run = created_monitor table table_laws news news_data none news_data_lem refl

removed_monitor_run :
    (remove table fresh_id (some news_row) ≡ (ok (api_data true), none))
    × (find_one table fresh_id none ≡ (err (monitor_not_found fresh_id), none))
    × (remove table fresh_id none ≡ (err (monitor_not_found fresh_id), none))
removed_monitor_run =
    removed_monitor table table_laws fresh_id news_row (some news_row) news_row_lem
