-- ===== src/Web/Monitors/Editing.antt =====
-- A monitor that is edited on the page of the monitors, against the API's update.
mod Tests
use social_monitor.Prelude.{
  ◌≡◌, ◌⊎◌, inl, inr, refl, Text, nonempty, nonempty?, [], ◌∷◌, ◌++◌, Option, none, some, false,
  true,
}
use social_monitor.Core.{Result, ok, err, api_data}
use social_monitor.Schema.{MonitorTarget}
use social_monitor.Database
use social_monitor.World.{Services}
use social_monitor.Monitors.Service.{MonitorDto, UpdateMonitor, patch_of, to_dto, update_monitor}
use social_monitor.Monitors.Service.Laws.{TargetLaws, KeepsId, patched}
use social_monitor.Monitors.Service.Switching.{ensure_present}
use social_monitor.Web.Monitors.{
  MonitorsPage, FormState, Call, patch_monitor, open_edit, update_body, submission, submit, called,
}

-- The form with another name and user name.
abbrev pub retyped : Text → Text → MonitorsPage → MonitorsPage
retyped name username s = record s { form = record s.form { name = name; username = username } }

-- The row with what the user typed; a user name that is emptied stays.
abbrev pub edited : Text → Text → MonitorTarget → MonitorTarget
edited name [] m = record m { name = name }
edited name (c ∷ username) m = record m { name = name; username = some (c ∷ username) }

-- The update that the edited form stands for.
abbrev pub edit_body : Text → Text → MonitorTarget → UpdateMonitor
edit_body name username m = record {
  name = some name;
  username = nonempty? username;
  external_id = nonempty? m.external_id;
  enabled = none;
}

edit_submitted :
    (m : MonitorTarget) (name username : Text) (s : MonitorsPage)
    → s.saving ≡ false
    → (submit (retyped name username (open_edit (to_dto m) s))).calls
      ≡ s.calls ++ (patch_monitor m.id (edit_body name username m) ∷ [])
unfolding submit open_edit to_dto
edit_submitted m name username s h = rw h refl

edit_keeps :
    (m : MonitorTarget) (e : Text)
    → m.external_id ≡ e
    → (nonempty? e ≡ none) ⊎ (nonempty? e ≡ some m.external_id)
edit_keeps m [] h = inl refl
edit_keeps m (c ∷ e) h = rw h (inr refl)

edit_patched :
    (m : MonitorTarget) (name username : Text)
    → patched (patch_of (edit_body name username m)) m ≡ edited name username m
edit_patched m name [] = refl
edit_patched m name (c ∷ username) = refl

module _ {D N R : Type 0} (sv : Services D N R) (laws : TargetLaws sv.prisma) where
  -- Editing a monitor on the page: with a new name and user name the form sends one update, and the
  -- API's update with that body answers the monitor with the name and, unless it was emptied, the
  -- user name; a user name that was emptied is not sent, so that the old one stays.
  pub edit_saved :
      (m : MonitorTarget) (name username : Text) (s : MonitorsPage) (d : D)
      → s.saving ≡ false
      → laws.find (Database.TargetKey.by_id m.id) d ≡ some m
      → let body = edit_body name username m in
        ((submit (retyped name username (open_edit (to_dto m) s))).calls
          ≡ s.calls ++ (patch_monitor m.id body ∷ []))
        × ((update_monitor sv.prisma m.id body d).0
            ≡ ok (api_data (to_dto (edited name username m))))
  unfolding update_monitor
  edit_saved m name username s d h k =
      let body = edit_body name username m in
      let keeps = edit_keeps m m.external_id refl in
      let (done, _) = laws.update_lem m.id (patch_of body) d m keeps k in
      (
        edit_submitted m name username s h,
        rw (ensure_present sv laws m.id m d k, done, edit_patched m name username) refl,
      )
