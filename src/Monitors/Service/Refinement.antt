-- ===== src/Monitors/Service/Refinement.antt =====
-- Any sequence of calls of monitors/monitor.service.ts against its abstract table.
mod Tests
use social_monitor.Prelude.{
  ◌≡◌, inl, refl, sym, ap, subst, ◌∙◌, Text, Bool, List, [], ◌∷◌, Option, none, some,
}
use mathlib.Core.Path.{fun_ext}
use social_monitor.Core.{
  Exception, Result, ok, err, Action, ◌>>=◌, ◌>>◌, continue, return, api_data, ApiSuccessResponse,
}
use social_monitor.Schema.{MonitorTarget}
use social_monitor.Database.{Prisma, TargetKey, TargetData, TargetPatch}
use social_monitor.Database
use social_monitor.World.{Services, World, on_db, in_db, emit}
use social_monitor.Monitors.Normalize.{normalize_create, CreateMonitor, has_required_params}
use social_monitor.Monitors.Normalize.Required.{row_of}
use social_monitor.Monitors.Service.{
  UpdateMonitor, MonitorCheck, MonitorDto, to_dto, patch_of, enabled_patch, create, update_monitor,
  set_enabled, remove, find_one, check, monitor_not_found, monitor_exists, ensure_exists,
}
use social_monitor.Monitors.Service.Laws.{TargetLaws, patched}
use social_monitor.Monitors.Service.Lifecycle.{
  create_free, create_taken, check_present, check_absent, remove_present, remove_absent,
  find_one-present, find_one-absent,
}
use social_monitor.Monitors.Service.Switching.{ensure_present, ensure_absent}
use social_monitor.Monitors.Service.Spec.{
  View, with_row, with_patch, without, Op, creating, updating, switching, removing, finding,
  checking, Answer, row, removed, check_result, spec, spec_insert, spec_create, spec_patch, on_row,
  replay,
}

-- Besides what the calls answer, that they touch no other row.
pub record ViewLaws {D : Type 0} (p : Prisma D) : Type 0 where
  pub base : TargetLaws p
  pub inserted_lem :
      (v : TargetData) (d : D)
      → base.find (Database.TargetKey.by_type_external_id v.type v.external_id) d ≡ none
      → (k : TargetKey)
      → base.find k (base.inserted v d) ≡ with_row (row_of (base.new_id d) v) (λ j. base.find j d) k
  pub updated_lem :
      (id : Text) (c : TargetPatch) (d : D)
      → c.external_id ≡ none
      → (k : TargetKey) → base.find k (base.updated id c d) ≡ with_patch id c (λ j. base.find j d) k
  pub deleted_lem :
      (id : Text) (d : D) (k : TargetKey)
      → base.find k (base.deleted id d) ≡ without id (λ j. base.find j d) k

-- An update that leaves the external id.
abbrev pub Keeps : Op → Type 0
Keeps (updating id dto) = dto.external_id ≡ none
Keeps (creating dto) = Unit {0}
Keeps (switching id enabled) = Unit {0}
Keeps (removing id) = Unit {0}
Keeps (finding id) = Unit {0}
Keeps (checking id) = Unit {0}

abbrev pub AllKeep : List Op → Type 0
AllKeep [] = Unit {0}
AllKeep (op ∷ ops) = Keeps op × AllKeep ops

module _ {D N R : Type 0} (sv : Services D N R) where
  abbrev answer_of :
      {A : Type 0} → (A → Answer) → ApiSuccessResponse A → Action (World D N R) Answer
  answer_of f r = return (f r.payload)

  unfoldable pub step : Op → Action (World D N R) Answer
  step (creating dto) = on_db (create sv.prisma dto) >>= answer_of row
  step (updating id dto) = on_db (update_monitor sv.prisma id dto) >>= answer_of row
  step (switching id enabled) = set_enabled sv id enabled >>= answer_of row
  step (removing id) = on_db (remove sv.prisma id) >>= answer_of (λ _. removed)
  step (finding id) = on_db (find_one sv.prisma id) >>= answer_of row
  step (checking id) = on_db (check sv.prisma id) >>= answer_of check_result

  -- A call that throws answers with the exception, and the next one follows.
  unfoldable pub run : List Op → World D N R → List (Result Answer) × World D N R
  run [] s = ([], s)
  run (op ∷ ops) s = let (r, t) = step op s in let (rs, u) = run ops t in (r ∷ rs, u)

  module _ (laws : ViewLaws sv.prisma) where
    abbrev pub view : D → View
    view d k = laws.base.find k d

    -- The ids that the database gives to new rows during a run.
    unfoldable pub ids_of : List Op → World D N R → List Text
    ids_of [] s = []
    ids_of (op ∷ ops) s = laws.base.new_id s.db ∷ ids_of ops (step op s).1

    abbrev Agrees : Result Answer × World D N R → Result Answer × View → Type 0
    Agrees (r, s) (a, v) = (r ≡ a) × (view s.db ≡ v)

    create_refused :
        (dto : CreateMonitor) (e : Exception) (d : D)
        → normalize_create dto ≡ err e
        → create sv.prisma dto d ≡ (err e, d)
    unfolding create
    create_refused dto e d h = rw h refl

    create_found :
        (dto : CreateMonitor) (v : TargetData) (s : World D N R) (o : Option MonitorTarget)
        → normalize_create dto ≡ ok v
        → laws.base.find (Database.TargetKey.by_type_external_id v.type v.external_id) s.db ≡ o
        → Agrees (step (creating dto) s) (spec_insert (laws.base.new_id s.db) v o (view s.db))
    unfolding step
    create_found dto v s none h e =
        rw (create_free sv.prisma laws.base dto v s.db h e)
          (refl, fun_ext (laws.inserted_lem v s.db e))
    create_found dto v s (some m) h e =
        rw (create_taken sv.prisma laws.base dto v s.db m h e) (refl, refl)

    create_refines :
        (dto : CreateMonitor) (s : World D N R) (n : Result TargetData)
        → normalize_create dto ≡ n
        → Agrees (step (creating dto) s) (spec_create (laws.base.new_id s.db) n (view s.db))
    unfolding step
    create_refines dto s (err e) h = rw (create_refused dto e s.db h) (refl, refl)
    create_refines dto s (ok v) h = create_found dto v s _ h refl

    update_refines :
        (id : Text) (dto : UpdateMonitor) (s : World D N R) (o : Option MonitorTarget)
        → dto.external_id ≡ none
        → laws.base.find (Database.TargetKey.by_id id) s.db ≡ o
        → Agrees (step (updating id dto) s) (
            on_row id
              (λ m. row (to_dto (patched (patch_of dto) m)))
              (with_patch id (patch_of dto))
              o
              (view s.db))
    unfolding step update_monitor
    update_refines id dto s none k e = rw (ensure_absent sv laws.base id s.db e) (refl, refl)
    update_refines id dto s (some m) k e =
        rw
          (
            ensure_present sv laws.base id m s.db e,
            (laws.base.update_lem id (patch_of dto) s.db m (inl k) e).0,
          )
          (refl, fun_ext (laws.updated_lem id (patch_of dto) s.db k))

    switch_refines :
        (id : Text) (enabled : Bool) (s : World D N R) (o : Option MonitorTarget)
        → laws.base.find (Database.TargetKey.by_id id) s.db ≡ o
        → Agrees (step (switching id enabled) s) (
            on_row id
              (λ m. row (to_dto (patched (enabled_patch enabled) m)))
              (with_patch id (enabled_patch enabled))
              o
              (view s.db))
    unfolding step set_enabled emit
    switch_refines id enabled s none e = rw (ensure_absent sv laws.base id s.db e) (refl, refl)
    switch_refines id enabled s (some m) e =
        rw
          (
            ensure_present sv laws.base id m s.db e,
            (laws.base.update_lem id (enabled_patch enabled) s.db m (inl refl) e).0,
          )
          (refl, fun_ext (laws.updated_lem id (enabled_patch enabled) s.db refl))

    remove_refines :
        (id : Text) (s : World D N R) (o : Option MonitorTarget)
        → laws.base.find (Database.TargetKey.by_id id) s.db ≡ o
        → Agrees (step (removing id) s) (on_row id (λ m. removed) (without id) o (view s.db))
    unfolding step
    remove_refines id s none e = rw (remove_absent sv.prisma laws.base id s.db e) (refl, refl)
    remove_refines id s (some m) e =
        rw (remove_present sv.prisma laws.base id m s.db e)
          (refl, fun_ext (laws.deleted_lem id s.db))

    find_refines :
        (id : Text) (s : World D N R) (o : Option MonitorTarget)
        → laws.base.find (Database.TargetKey.by_id id) s.db ≡ o
        → Agrees (step (finding id) s) (on_row id (λ m. row (to_dto m)) (λ w. w) o (view s.db))
    unfolding step
    find_refines id s none e = rw (find_one-absent sv.prisma laws.base id s.db e) (refl, refl)
    find_refines id s (some m) e =
        rw (find_one-present sv.prisma laws.base id m s.db e) (refl, refl)

    check_refines :
        (id : Text) (s : World D N R) (o : Option MonitorTarget)
        → laws.base.find (Database.TargetKey.by_id id) s.db ≡ o
        → Agrees (step (checking id) s) (
            on_row id
              (λ m. check_result (record { valid = has_required_params m; name = m.name }))
              (λ w. w)
              o
              (view s.db))
    unfolding step
    check_refines id s none e = rw (check_absent sv.prisma laws.base id s.db e) (refl, refl)
    check_refines id s (some m) e = rw (check_present sv.prisma laws.base id m s.db e) (refl, refl)

    step_refines :
        (op : Op) (s : World D N R)
        → Keeps op
        → Agrees (step op s) (spec op (laws.base.new_id s.db) (view s.db))
    unfolding spec
    step_refines (creating dto) s k = create_refines dto s (normalize_create dto) refl
    step_refines (updating id dto) s k = update_refines id dto s _ k refl
    step_refines (switching id enabled) s k = switch_refines id enabled s _ refl
    step_refines (removing id) s k = remove_refines id s _ refl
    step_refines (finding id) s k = find_refines id s _ refl
    step_refines (checking id) s k = check_refines id s _ refl

    -- Any sequence of calls of the service, from any state, answers and throws, call for call, as the
    -- same operations on the table of rows by their keys do, where new rows have the ids that the
    -- database gives; and after it the keys find just the rows of that table. Of the updates this
    -- takes those that leave the external id.
    pub run_refines :
        (ops : List Op) (s : World D N R)
        → AllKeep ops
        → let (answers, after) = replay ops (ids_of ops s) (view s.db) in
          ((run ops s).0 ≡ answers) × (view (run ops s).1.db ≡ after)
    unfolding run ids_of replay
    run_refines [] s k = (refl, refl)
    run_refines (op ∷ ops) s (k, ks) =
        let (answered, viewed) = step_refines op s k in
        let (answers, after) = run_refines ops (step op s).1 ks in
        rw (sym answered, sym viewed) (ap (λ rs. (step op s).0 ∷ rs) answers, after)
