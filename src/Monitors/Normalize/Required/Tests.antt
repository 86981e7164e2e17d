-- ===== src/Monitors/Normalize/Required/Tests.antt =====
-- What is let through, at concrete input.
use social_monitor.Prelude.{◌≡◌, refl, text, trim, nonempty, true, some}
use social_monitor.Core.{ok}
use social_monitor.Schema.{x_user}
use social_monitor.Database.{TargetData}
use social_monitor.Monitors.Normalize.{
  CreateMonitor, normalize_create, has_required_params, trimmed_or_null,
}
use social_monitor.Monitors.Normalize.Required.{
  is_let_through, is_let_through-normalize_create, names_a_target,
  normalize_create-has_required_params, row_of,
}

abbrev by_username : CreateMonitor
by_username = record {
  type = x_user;
  name = text " Jack";
  username = some (text "jack ");
  external_id = some (text "  ");
}

abbrev stored : TargetData
stored = record {
  type = x_user;
  name = text "Jack";
  username = some (text "jack");
  external_id = text "jack";
}

stored_lem : normalize_create by_username ≡ ok stored
unfolding normalize_create trim
stored_lem = refl

is_let_through-normalize_create_run :
    is_let_through (normalize_create by_username) ≡ names_a_target by_username
is_let_through-normalize_create_run = is_let_through-normalize_create by_username

normalize_create-has_required_params_example :
    (stored.type ≡ by_username.type)
    × (stored.name ≡ trim by_username.name)
    × (stored.username ≡ trimmed_or_null by_username.username)
    × (nonempty stored.external_id ≡ true)
    × (has_required_params (row_of (text "t1") stored) ≡ true)
normalize_create-has_required_params_example =
    normalize_create-has_required_params by_username stored (text "t1") stored_lem
