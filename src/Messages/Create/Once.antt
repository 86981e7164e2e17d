-- ===== src/Messages/Create/Once.antt =====
-- The same message created twice by messages/message.service.ts: it is stored, announced and
-- enqueued once.
mod Tests
use social_monitor.Prelude.{
  ℕ, ◌≡◌, refl, sym, ap, ◌∙◌, Text, text, ◌==◌, ==_iff, ==_refl, Bool, true, false, not, ◌&&◌, ◌||◌,
  List, [], ◌∷◌, ◌++◌, map, filter, Option, none, some, arith, if◌then◌else◌, Option-cases,
  Bool-cases, inl, inr,
}
use mathlib.Core.List.{append-nil}
use social_monitor.Core.{Result, ok, err}
use social_monitor.Schema.{MessageSource, MonitorTarget, NotificationChannel}
use social_monitor.Database.{Prisma, MessageWithTarget, CreatedTask}
use social_monitor.World.{World, Services, Job}
use social_monitor.Queue.{contains}
use social_monitor.Messages.Dto.{NormalizedMessage, MessageDto, to_dto, create_input}
use social_monitor.Messages.Create.{create}
use social_monitor.Messages.Create.Laws.{
  enabled_channels, MessageLaws, ids, same_source, touched, touch_message, touch_target,
}
use social_monitor.Messages.Create.Routing.{Routed, jobs_for}
use social_monitor.Messages.Create.Storing.{
  create_existing, create_raced, create_new, messages_new, created, new_world, inserted,
}

-- The message is stored, its DTO is known, and all enabled channels have a task of it.
pub record Held {D : Type 0} {p : Prisma D} (laws : MessageLaws p) (input : NormalizedMessage)
    (dto : MessageDto) (d : D) : Type 0 where
  pub message : MessageWithTarget
  pub target : MonitorTarget
  pub stored : laws.message_at input.source input.external_id d ≡ some message
  pub monitored : laws.target_at input.target_type input.target_external_id d ≡ some target
  pub shown : to_dto message ≡ dto
  pub tasked :
      (c : Text)
      → contains c (ids (enabled_channels laws d)) ≡ true
      → laws.tasked message.message.id c d ≡ true

-- What may happen to the database in between: the message of the input stays stored, with the id and
-- the DTO that it has, its target stays monitored, its tasks stay, and no further channel is
-- enabled. Anything else may be written.
pub record Kept {D : Type 0} {p : Prisma D} (laws : MessageLaws p) (input : NormalizedMessage)
    (d d' : D) : Type 0 where
  pub message :
      (m : MessageWithTarget)
      → laws.message_at input.source input.external_id d ≡ some m
      → (m' : MessageWithTarget) × (laws.message_at input.source input.external_id d' ≡ some m')
        × (m'.message.id ≡ m.message.id)
        × (to_dto m' ≡ to_dto m)
  pub target :
      (t : MonitorTarget)
      → laws.target_at input.target_type input.target_external_id d ≡ some t
      → (t' : MonitorTarget) × (laws.target_at input.target_type input.target_external_id d'
          ≡ some t')
  pub tasks : (m c : Text) → laws.tasked m c d ≡ true → laws.tasked m c d' ≡ true
  pub channels :
      (c : Text)
      → contains c (ids (enabled_channels laws d')) ≡ true
      → contains c (ids (enabled_channels laws d)) ≡ true

pub Kept-refl :
    {D : Type 0} {p : Prisma D} (laws : MessageLaws p) (input : NormalizedMessage) (d : D)
    → Kept laws input d d
Kept-refl laws input d = record {
  message = λ m h. (m, h, refl, refl);
  target = λ t h. (t, h);
  tasks = λ m c h. h;
  channels = λ c h. h;
}

pub Held-Kept :
    {D : Type 0} {p : Prisma D} (laws : MessageLaws p) (input : NormalizedMessage)
    (dto : MessageDto) (d d' : D)
    → Kept laws input d d'
    → Held laws input dto d
    → Held laws input dto d'
Held-Kept laws input dto d d' kept held =
    let (m, stored, same_id, same_dto) = kept.message held.message held.stored in
    let (t, monitored) = kept.target held.target held.monitored in
    record {
      message = m;
      target = t;
      stored = stored;
      monitored = monitored;
      shown = same_dto ∙ held.shown;
      tasked = λ c known.
          rw same_id (kept.tasks held.message.message.id c (held.tasked c (kept.channels c known)));
    }

pub to_dto-touched :
    (id : Text) (at : ℕ) (m : MessageWithTarget)
    → to_dto (record m { target = touched id at m.target }) ≡ to_dto m
unfolding to_dto
to_dto-touched id at m = elim (Bool-cases (m.target.id == id)) [ inl e ↦ rw e | inr e ↦ rw e ]

no_ids : (ts : List CreatedTask) → map (λ t. t.channel_id) ts ≡ [] → ts ≡ []
no_ids [] e = refl
no_ids (t ∷ ts) e = cc

filter_none :
    (f : Text → Bool) (all cs : List Text)
    → ((c : Text) → contains c all ≡ true → f c ≡ true)
    → ((c : Text) → contains c cs ≡ true → contains c all ≡ true)
    → filter (λ c. not (f c)) cs ≡ []
filter_none f all [] h k = refl
filter_none f all (c ∷ cs) h k =
    let listed : contains c all ≡ true = k c (ground (arith, ==_refl c)) in
    rw (h c listed) (filter_none f all cs h (λ c' e. k c' (ground (arith, e))))

module _ {D N R : Type 0} (sv : Services D N R) (laws : MessageLaws sv.prisma)
    (input : NormalizedMessage) where
  same_key :
      (same_source input.source input.source && input.external_id == input.external_id) ≡ true
  same_key = ground (arith, ==_refl input.external_id)

  pub new_target :
      (others : D → D) (s : World D N R) (t : MonitorTarget)
      → laws.target_at input.target_type input.target_external_id (others s.db) ≡ some t
      → laws.target_at input.target_type input.target_external_id
          (new_world sv laws others input s t).db
        ≡ some (touched t.id input.published_at t)
  new_target others s t h' =
      laws.touch_targets t.id input.published_at (inserted sv laws others input s t)
        input.target_type input.target_external_id
      ∙ ap (touch_target t.id input.published_at) (
          laws.create_targets (create_input input t) (others s.db) input.target_type
            input.target_external_id
          ∙ h')

  pub new_stored :
      (others : D → D) (s : World D N R) (t : MonitorTarget)
      → laws.target_at input.target_type input.target_external_id (others s.db) ≡ some t
      → laws.message_at input.source input.external_id (others s.db) ≡ none
      → laws.message_at input.source input.external_id (new_world sv laws others input s t).db
        ≡ some (record (created sv laws others input s t) {
          target = touched t.id input.published_at t;
        })
  new_stored others s t h' k' =
      messages_new sv laws others input s t input.source input.external_id h' k' ∙ rw same_key refl

module _ {D N R : Type 0} (sv : Services D N R) (laws : MessageLaws sv.prisma)
    (accepts : (job : Job) (r : R) → (sv.bull.add job r).0 ≡ ok tt)
    (input : NormalizedMessage) where
  Routed-Held :
      (m : MessageWithTarget) (t : MonitorTarget) (w w' : World D N R)
      → laws.message_at input.source input.external_id w.db ≡ some m
      → laws.target_at input.target_type input.target_external_id w.db ≡ some t
      → Routed laws m.message.id (enabled_channels laws w.db) w w'
      → Held laws input (to_dto m) w'.db
  Routed-Held m t w w' h k r = record {
    message = m;
    target = t;
    stored = r.messages input.source input.external_id ∙ h;
    monitored = r.targets input.target_type input.target_external_id ∙ k;
    shown = refl;
    tasked = λ c e. r.tasked c (rw (← r.channels) e);
  }

  new_case :
      (others : D → D) (s : World D N R) (t : MonitorTarget)
      → laws.target_at input.target_type input.target_external_id s.db ≡ some t
      → laws.target_at input.target_type input.target_external_id (others s.db) ≡ some t
      → laws.message_at input.source input.external_id s.db ≡ none
      → laws.message_at input.source input.external_id (others s.db) ≡ none
      → (dto : MessageDto) × ((create sv others input s).0 ≡ ok dto)
        × Held laws input dto (create sv others input s).1.db
  new_case others s t h h' k k' =
      let (done, stored, r) = create_new sv laws others input s accepts t h h' k k' in
      let m = created sv laws others input s t in
      let at = input.published_at in
      (
        to_dto m,
        done,
        record {
          message = record m { target = touched t.id at t };
          target = touched t.id at t;
          stored = stored input.source input.external_id ∙ rw (same_key sv laws input) refl;
          monitored =
              r.targets input.target_type input.target_external_id
              ∙ new_target sv laws input others s t h';
          shown = to_dto-touched t.id at m;
          tasked = λ c e. r.tasked c (rw (← r.channels) e);
        },
      )

  first-Held :
      (others : D → D) (s : World D N R) (t : MonitorTarget)
      → laws.target_at input.target_type input.target_external_id s.db ≡ some t
      → laws.target_at input.target_type input.target_external_id (others s.db) ≡ some t
      → (dto : MessageDto) × ((create sv others input s).0 ≡ ok dto)
        × Held laws input dto (create sv others input s).1.db
  first-Held others s t h h' =
      elim (Option-cases (laws.message_at input.source input.external_id s.db)) [
        | inr (m, k) ↦
            let (done, r) = create_existing sv laws others input s accepts t m h k in
            (to_dto m, done, Routed-Held m t s _ k h r)
        | inl k ↦
            elim (Option-cases (laws.message_at input.source input.external_id (others s.db))) [
              | inr (m, k') ↦
                  let (done, r) = create_raced sv laws others input s accepts t m h k k' in
                  (to_dto m, done, Routed-Held m t (record s { db = others s.db }) _ k' h' r)
              | inl k' ↦ new_case others s t h h' k k'
            ]
      ]

  nothing_new :
      (m : Text) (d : D)
      → ((c : Text) → contains c (ids (enabled_channels laws d)) ≡ true → laws.tasked m c d ≡ true)
      → laws.new_tasks m (ids (enabled_channels laws d)) d ≡ []
  nothing_new m d h = no_ids _ (
      laws.tasks_new m (ids (enabled_channels laws d)) d (laws.channels_distinct d)
      ∙ filter_none (λ c. laws.tasked m c d) (ids (enabled_channels laws d))
          (ids (enabled_channels laws d)) h (λ c e. e))

  -- The message of a held DTO again, at any time after: the answer is the same, no row is added or
  -- changed, no event is sent and no job is enqueued.
  pub again :
      (others : D → D) (s : World D N R) (dto : MessageDto)
      → Held laws input dto s.db
      → ((create sv others input s).0 ≡ ok dto)
        × ((create sv others input s).1.jobs ≡ s.jobs)
        × ((create sv others input s).1.events ≡ s.events)
        × ((source : MessageSource) (k : Text)
            → laws.message_at source k (create sv others input s).1.db
              ≡ laws.message_at source k s.db)
  again others s dto held =
      let (done, r) =
        create_existing sv laws others input s accepts held.target held.message held.monitored
          held.stored in
      (
        done ∙ ap ok held.shown,
        r.jobs
            ∙ (ap (λ ts. s.jobs ++ jobs_for (enabled_channels laws s.db) ts)
                  (nothing_new held.message.message.id s.db held.tasked)
                ∙ append-nil s.jobs),
        r.events,
        r.messages,
      )

  -- Creating a message of a monitored target a second time, with queues that accept every job.
  -- Between the look-up and the insert of the first call other clients may write anything that
  -- leaves the target's row as it is; between the two calls anything may happen that keeps the
  -- message, its tasks and its target, and enables no further channel. Then the second call answers
  -- the same DTO, and adds no message, no event and no job.
  pub create_twice :
      (others others' : D → D) (s s' : World D N R) (t : MonitorTarget)
      → laws.target_at input.target_type input.target_external_id s.db ≡ some t
      → laws.target_at input.target_type input.target_external_id (others s.db) ≡ some t
      → Kept laws input (create sv others input s).1.db s'.db
      → let second = create sv others' input s' in
        (second.0 ≡ (create sv others input s).0)
        × (second.1.jobs ≡ s'.jobs)
        × (second.1.events ≡ s'.events)
        × ((source : MessageSource) (k : Text)
            → laws.message_at source k second.1.db ≡ laws.message_at source k s'.db)
  create_twice others others' s s' t h h' kept =
      let (dto, done, held) = first-Held others s t h h' in
      let held' = Held-Kept laws input dto (create sv others input s).1.db s'.db kept held in
      let (same, jobs, events, messages) = again others' s' dto held' in
      (same ∙ sym done, jobs, events, messages)
