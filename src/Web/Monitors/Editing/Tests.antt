-- ===== src/Web/Monitors/Editing/Tests.antt =====
-- A monitor whose user name is emptied on the page.
use social_monitor.Prelude.{◌≡◌, refl, text, ◌==◌, false, true, [], ◌∷◌, ◌++◌, none, some}
use social_monitor.Core.{ok, api_data}
use social_monitor.Schema.{x_user, MonitorTarget}
use social_monitor.Database
use social_monitor.World.{Services}
use social_monitor.Fixtures.{Script, scripted, accepting}
use social_monitor.Monitors.Service.{update_monitor, to_dto}
use social_monitor.Monitors.Service.Table.{Table, table, table_laws, look_up}
use social_monitor.Web.Monitors.{MonitorsPage, empty_form, patch_monitor, open_edit, submit}
use social_monitor.Web.Monitors.Editing.{edit_saved, edit_body, edited, retyped}

abbrev jack : MonitorTarget
jack = record {
  id = text "t7";
  type = x_user;
  name = text "Jack";
  username = some (text "jack");
  external_id = text "12";
  enabled = true;
  last_message_at = none;
}

abbrev services : Services Table Script (Unit {0})
services = record { prisma = table; network = scripted; bull = accepting }

abbrev page : MonitorsPage
page = record {
  monitors = to_dto jack ∷ [];
  loading = false;
  error = none;
  editing = none;
  show_form = false;
  form = empty_form;
  dialogs = [];
  saving = false;
  notice = none;
  calls = [];
}

jack_lem : look_up (Database.TargetKey.by_id (text "t7")) (some jack) ≡ some jack
unfolding ◌==◌
jack_lem = refl

edit_saved_example :
    let body = edit_body (text "Jack D.") [] jack in
    ((submit (retyped (text "Jack D.") [] (open_edit (to_dto jack) page))).calls
      ≡ page.calls ++ (patch_monitor (text "t7") body ∷ []))
    × ((update_monitor table (text "t7") body (some jack)).0
        ≡ ok (api_data (to_dto (edited (text "Jack D.") [] jack))))
edit_saved_example =
    edit_saved services table_laws jack (text "Jack D.") [] page (some jack) refl jack_lem
