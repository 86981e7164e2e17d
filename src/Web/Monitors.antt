-- ===== src/Web/Monitors.antt =====
-- apps/web/app/monitors/page.tsx: the page of the monitors. Each handler is cut at its awaits, and the
-- answers of the API come as events.
mod Editing
use social_monitor.Prelude.{
  Text, text, nonempty, nonempty?, Bool, true, false, not, List, [], ◌∷◌, ◌++◌, find, ◌==◌, or_text,
  Option, none, some, if◌then◌else◌,
}
use social_monitor.Core.{Exception, Result, ok, err, message_of, or_default, ApiPaginatedResponse}
use social_monitor.Schema.{MonitorType, x_user, tg_channel, tg_group}
use social_monitor.Monitors.Normalize.{CreateMonitor}
use social_monitor.Monitors.Service.{MonitorDto, MonitorCheck, UpdateMonitor}

pub record FormState : Type 0 where
  pub type : MonitorType
  pub name : Text
  pub username : Text
  pub external_id : Text

abbrev pub empty_form : FormState
empty_form = record { type = x_user; name = []; username = []; external_id = [] }

pub record TelegramDialog : Type 0 where
  pub id : Text
  pub title : Text

-- The calls of the API.
pub data Call : Type 0 where
  get_monitors : Call
  get_dialogs : (path : Text) → Call
  patch_monitor : (id : Text) → UpdateMonitor → Call
  post_monitor : CreateMonitor → Call
  enable disable delete check : (id : Text) → Call

pub record MonitorsPage : Type 0 where
  pub monitors : List MonitorDto
  pub loading : Bool
  pub error : Option Text
  pub editing : Option MonitorDto
  pub show_form : Bool
  pub form : FormState
  pub dialogs : List TelegramDialog
  pub saving : Bool
  pub notice : Option Text
  pub calls : List Call

abbrev pub called : Call → MonitorsPage → MonitorsPage
called c s = record s { calls = s.calls ++ (c ∷ []) }

unfoldable pub load : MonitorsPage → MonitorsPage
load s = called get_monitors (record s { loading = true })

unfoldable pub loaded : Result (ApiPaginatedResponse MonitorDto) → MonitorsPage → MonitorsPage
loaded (ok r) s = record s { monitors = r.payload; error = none; loading = false }
loaded (err e) s = record s { error = some (message_of e); loading = false }

-- The effect of the form's type.
unfoldable pub load_dialogs : MonitorType → MonitorsPage → MonitorsPage
load_dialogs x_user s = record s { dialogs = [] }
load_dialogs tg_channel s = called (get_dialogs (text "/telegram/channels")) s
load_dialogs tg_group s = called (get_dialogs (text "/telegram/groups")) s

unfoldable pub dialogs_answered : Result (List TelegramDialog) → MonitorsPage → MonitorsPage
dialogs_answered (ok items) s = record s { dialogs = items }
dialogs_answered (err e) s = record s { dialogs = [] }

unfoldable pub open_create : MonitorsPage → MonitorsPage
open_create s = record s { editing = none; form = empty_form; show_form = true }

unfoldable pub open_edit : MonitorDto → MonitorsPage → MonitorsPage
open_edit m s = record s {
  editing = some m;
  form = record {
    type = m.type;
    name = m.name;
    username = or_default m.username [];
    external_id = m.external_id;
  };
  show_form = true;
}

abbrev title_of : Option TelegramDialog → Text
title_of none = []
title_of (some d) = d.title

-- Choosing a dialog: its id, and its title where the form has no name.
unfoldable pub choose_dialog : Text → MonitorsPage → MonitorsPage
choose_dialog id s =
    let title = title_of (find (λ d. d.id == id) s.dialogs) in
    record s { form = record s.form { external_id = id; name = or_text s.form.name title } }

-- A member that is empty is left out of a body.
abbrev pub update_body : FormState → UpdateMonitor
update_body form = record {
  name = some form.name;
  username = nonempty? form.username;
  external_id = nonempty? form.external_id;
  enabled = none;
}

abbrev pub create_body : FormState → CreateMonitor
create_body form = record {
  type = form.type;
  name = form.name;
  username = nonempty? form.username;
  external_id = nonempty? form.external_id;
}

abbrev pub submission : Option MonitorDto → FormState → Call
submission none form = post_monitor (create_body form)
submission (some m) form = patch_monitor m.id (update_body form)

-- The button is disabled while a form is being saved.
unfoldable pub submit : MonitorsPage → MonitorsPage
submit s =
    if s.saving
    then s
    else called (submission s.editing s.form) (record s { saving = true; notice = none })

abbrev saved_notice : Option MonitorDto → Text
saved_notice none = text "已创建"
saved_notice (some m) = text "已保存"

-- With the `editing` that the handler was made with. After a success the monitors are loaded again,
-- which ends the handler.
unfoldable pub submit_answered : Option MonitorDto → Result (Unit {0}) → MonitorsPage → MonitorsPage
unfolding load
submit_answered editing (ok u) s =
    load (record s { notice = some (saved_notice editing); show_form = false })
submit_answered editing (err e) s = record s { notice = some (message_of e); saving = false }

unfoldable pub submit_loaded :
    Result (ApiPaginatedResponse MonitorDto) → MonitorsPage → MonitorsPage
unfolding loaded
submit_loaded r s = record (loaded r s) { saving = false }

unfoldable pub toggle : MonitorDto → MonitorsPage → MonitorsPage
toggle m s = called (if m.enabled then disable m.id else enable m.id) s

-- With the user's answer to the question.
unfoldable pub remove : (confirmed : Bool) → MonitorDto → MonitorsPage → MonitorsPage
remove confirmed m s = if not confirmed then s else called (delete m.id) s

-- `toggle` and `remove` load the monitors after a success; a failure is not caught.
unfoldable pub changed : Result (Unit {0}) → MonitorsPage → MonitorsPage
unfolding load
changed (ok u) s = load s
changed (err e) s = s

unfoldable pub press_check : MonitorDto → MonitorsPage → MonitorsPage
press_check m s = called (check m.id) s

abbrev check_notice : MonitorCheck → Text
check_notice c = text "「" ++ (c.name ++ (if c.valid then text "」参数有效" else text "」参数缺失"))

unfoldable pub check_answered : Result MonitorCheck → MonitorsPage → MonitorsPage
check_answered (ok c) s = record s { notice = some (check_notice c) }
check_answered (err e) s = s
