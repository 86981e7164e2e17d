-- ===== src/Messages/Create/Storing.antt =====
-- The branches of `create` in messages/message.service.ts: a new message, one that is already
-- stored, one that another client stores first, and one whose target is not monitored.
mod Tests
use social_monitor.Prelude.{
  ℕ, ◌≡◌, refl, sym, ap, ◌∙◌, Text, text, ◌==◌, ==_iff, ==_refl, Bool, true, false, not, ◌&&◌, List,
  [], ◌∷◌, ◌++◌, Option, none, some, arith, if◌then◌else◌,
}
use social_monitor.Core.{Result, ok, err, Action, continue}
use social_monitor.Schema.{MonitorType, MessageSource, MonitorTarget, NotificationChannel}
use social_monitor.Database.{Prisma, MessageWithTarget, MessageData}
use social_monitor.World.{World, Services, Job, SseEvent, message_created, world_now}
use social_monitor.Messages.Repository.{create_message, update_target_last_message_at}
use social_monitor.Messages.Dto.{
  NormalizedMessage, MessageDto, to_dto, create_input, target_not_found,
}
use social_monitor.Messages.Create.{
  create, save, announce, resolve_target, deduplicate, route_to_enabled_channels,
}
use social_monitor.Messages.Create.Laws.{
  enabled_channels, MessageLaws, message_of_data, touched, touch_message, same_source,
}
use social_monitor.Messages.Create.Routing.{Routed, route_to_enabled_channels-Routed}

module _ {D N R : Type 0} (sv : Services D N R) (laws : MessageLaws sv.prisma) (others : D → D)
    (input : NormalizedMessage) (s : World D N R) where
  abbrev target_of : D → Option MonitorTarget
  target_of d = laws.target_at input.target_type input.target_external_id d

  abbrev stored : D → Option MessageWithTarget
  stored d = laws.message_at input.source input.external_id d

  resolved_none :
      target_of s.db ≡ none
      → resolve_target sv input s
        ≡ (err (target_not_found input.target_type input.target_external_id), s)
  unfolding resolve_target
  resolved_none h = ground (arith, laws.find_target input.target_type input.target_external_id s.db)

  resolved : (t : MonitorTarget) → target_of s.db ≡ some t → resolve_target sv input s ≡ (ok t, s)
  unfolding resolve_target
  resolved t h = ground (arith, laws.find_target input.target_type input.target_external_id s.db)

  -- A message of a target that is not monitored is refused with TARGET_NOT_FOUND, and nothing is
  -- stored, sent, announced or enqueued.
  pub create_unmonitored :
      target_of s.db ≡ none
      → create sv others input s
        ≡ (err (target_not_found input.target_type input.target_external_id), s)
  unfolding create
  create_unmonitored h = ground (arith, resolved_none h)

  -- The rest of `create`, once the message is at hand.
  abbrev pub routed : MessageWithTarget → Action (World D N R) MessageDto
  routed m w = continue (λ _ w'. (ok (to_dto m), w')) (route_to_enabled_channels sv m.message.id w)

  abbrev announced :
      MonitorTarget
      → Result (MessageWithTarget × Bool) × World D N R
      → Result MessageDto × World D N R
  announced t =
      continue (λ saved w. continue (λ _ w'. routed saved.0 w') (announce sv input t saved w))

  looked_up :
      (t : MonitorTarget)
      → target_of s.db ≡ some t
      → create sv others input s ≡ announced t (save sv others input t (stored s.db) s)
  unfolding create
  looked_up t h =
      ground (arith, resolved t h, laws.find_message input.source input.external_id s.db)

  existing_lem :
      (t : MonitorTarget) (m : MessageWithTarget)
      → target_of s.db ≡ some t
      → stored s.db ≡ some m
      → create sv others input s ≡ routed m s
  unfolding save announce
  existing_lem t m h k = rw (looked_up t h, k)

  abbrev pub raced_world : World D N R
  raced_world = record s { db = others s.db }

  conflict :
      (t : MonitorTarget) (m : MessageWithTarget)
      → stored (others s.db) ≡ some m
      → save sv others input t none s ≡ (ok (m, false), raced_world)
  unfolding save deduplicate create_input
  conflict t m r = ground (
    arith,
    laws.create_conflict (create_input input t) (others s.db) m r,
    laws.find_message input.source input.external_id (others s.db),
    ==_refl (text "P2002"),
  )

  raced_lem :
      (t : MonitorTarget) (m : MessageWithTarget)
      → target_of s.db ≡ some t
      → stored s.db ≡ none
      → stored (others s.db) ≡ some m
      → create sv others input s ≡ routed m raced_world
  unfolding announce
  raced_lem t m h k r = rw (looked_up t h, k, conflict t m r)

  -- The message that an insert makes, and the world once it is stored and announced.
  abbrev pub created : MonitorTarget → MessageWithTarget
  created t = record {
    message = message_of_data (laws.fresh (others s.db)) (create_input input t);
    target = t;
  }

  abbrev pub inserted : MonitorTarget → D
  inserted t = (create_message sv.prisma (create_input input t) (others s.db)).1

  abbrev pub new_world : MonitorTarget → World D N R
  new_world t = record s {
    db = (update_target_last_message_at sv.prisma t.id input.published_at (inserted t)).1;
    events =
        s.events
        ++ (record {
          event = message_created (created t).message.id (created t).message.source t.name;
          timestamp = world_now sv s;
        }
            ∷ []);
  }

  insert_lem :
      (t : MonitorTarget)
      → target_of (others s.db) ≡ some t
      → stored (others s.db) ≡ none
      → save sv others input t none s ≡ (ok (created t, true), record s { db = inserted t })
  unfolding save create_input
  insert_lem t h k = ground (
    arith,
    laws.create_answer (create_input input t) (others s.db) input.target_type
        input.target_external_id t k h refl,
  )

  announce_lem :
      (t : MonitorTarget)
      → target_of (others s.db) ≡ some t
      → announce sv input t (created t, true) (record s { db = inserted t }) ≡ (ok tt, new_world t)
  unfolding announce
  announce_lem t h = ground (
    arith,
    laws.touch_answer t.id input.published_at (inserted t) input.target_type
        input.target_external_id t
        (laws.create_targets (create_input input t) (others s.db) input.target_type
            input.target_external_id
          ∙ h)
        refl,
  )

  pub new_lem :
      (t : MonitorTarget)
      → target_of s.db ≡ some t
      → target_of (others s.db) ≡ some t
      → stored s.db ≡ none
      → stored (others s.db) ≡ none
      → create sv others input s ≡ routed (created t) (new_world t)
  new_lem t h h' k k' = rw (looked_up t h, k, insert_lem t h' k', announce_lem t h')

  pub routed_lem :
      (m : MessageWithTarget) (w : World D N R)
      → (route_to_enabled_channels sv m.message.id w).0 ≡ ok tt
      → routed m w ≡ (ok (to_dto m), (route_to_enabled_channels sv m.message.id w).1)
  routed_lem m w h = ground arith

  -- Every message of the database after a new one has been stored.
  pub messages_new :
      (t : MonitorTarget) (source : MessageSource) (k : Text)
      → target_of (others s.db) ≡ some t
      → stored (others s.db) ≡ none
      → laws.message_at source k (new_world t).db
        ≡ touch_message t.id input.published_at (
            if same_source input.source source && input.external_id == k
            then some (created t)
            else laws.message_at source k (others s.db))
  unfolding create_input
  messages_new t source k h n =
      laws.touch_messages t.id input.published_at (inserted t) source k
      ∙ ap (touch_message t.id input.published_at) (
          laws.create_row (create_input input t) (others s.db) input.target_type
            input.target_external_id t source k n h refl)

  module _ (accepts : (job : Job) (r : R) → (sv.bull.add job r).0 ≡ ok tt) where
    pub create_existing :
        (t : MonitorTarget) (m : MessageWithTarget)
        → target_of s.db ≡ some t
        → stored s.db ≡ some m
        → ((create sv others input s).0 ≡ ok (to_dto m))
          × Routed laws m.message.id (enabled_channels laws s.db) s (create sv others input s).1
    create_existing t m h k =
        let (done, r) =
          route_to_enabled_channels-Routed sv accepts laws m.message.id s
            (enabled_channels laws s.db) refl in
        rw (existing_lem t m h k ∙ routed_lem m s done) (refl, r)

    -- The race for one message: it is free when it is looked up and taken by another client before
    -- it is inserted, with queues that accept every job. The insert's P2002 is caught, the other client's row is given back and routed,
    -- and no second row and no second event come of it.
    pub create_raced :
        (t : MonitorTarget) (m : MessageWithTarget)
        → target_of s.db ≡ some t
        → stored s.db ≡ none
        → stored (others s.db) ≡ some m
        → ((create sv others input s).0 ≡ ok (to_dto m))
          × Routed laws m.message.id
              (enabled_channels laws (others s.db))
              raced_world
              (create sv others input s).1
    create_raced t m h k r =
        let (done, routes) =
          route_to_enabled_channels-Routed sv accepts laws m.message.id raced_world
            (enabled_channels laws (others s.db)) refl in
        rw (raced_lem t m h k r ∙ routed_lem m raced_world done) (refl, routes)

    -- A new message, with queues that accept every job: the answer is its DTO; it is stored under
    -- its (source, externalId) with the members of the input, and every other message keeps its
    -- members; the target's time of the last message is the message's; `message.created` is sent
    -- once; and it is routed to the channels that are enabled after the insert.
    pub create_new :
        (t : MonitorTarget)
        → target_of s.db ≡ some t
        → target_of (others s.db) ≡ some t
        → stored s.db ≡ none
        → stored (others s.db) ≡ none
        → ((create sv others input s).0 ≡ ok (to_dto (created t)))
          × ((source : MessageSource) (k : Text)
              → laws.message_at source k (create sv others input s).1.db
                ≡ touch_message t.id input.published_at (
                    if same_source input.source source && input.external_id == k
                    then some (created t)
                    else laws.message_at source k (others s.db)))
          × Routed laws
              (created t).message.id
              (enabled_channels laws (new_world t).db)
              (new_world t)
              (create sv others input s).1
    create_new t h h' k k' =
        let m = created t in
        let (done, r) =
          route_to_enabled_channels-Routed sv accepts laws m.message.id (new_world t)
            (enabled_channels laws (new_world t).db) refl in
        rw (new_lem t h h' k k' ∙ routed_lem m (new_world t) done)
          (refl, (λ source key. r.messages source key ∙ messages_new t source key h' k'), r)
