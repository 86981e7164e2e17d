-- ===== src/Messages/Create.antt =====
-- `create` of messages/message.service.ts: a message is stored once, announced once, and routed to
-- the enabled channels.
pub mod Laws
pub mod Routing
pub mod Storing
pub mod Once
pub mod Lost
pub mod Store
pub mod Samples
use social_monitor.Prelude.{
  ℕ, Text, text, Bool, true, false, ◌==◌, List, [], ◌∷◌, map, Option, none, some, if◌then◌else◌,
}
use social_monitor.Core.{
  Exception, is_prisma_unique_violation, Result, ok, err, Action, ◌>>=◌, ◌>>◌, continue, return,
  throw, catch, rescue, or_throw,
}
use social_monitor.Schema.{NotificationChannelType, MonitorTarget, NotificationChannel}
use social_monitor.Database.{MessageWithTarget, CreatedTask}
use social_monitor.World.{World, Services, on_db, in_db, emit, message_created}
use social_monitor.Queue.{enqueue_task}
use social_monitor.Messages.Repository.{
  find_target_by_type_external_id, find_unique_by_source_external_id, create_message,
  update_target_last_message_at, find_enabled_notification_channels, create_notification_tasks,
}
use social_monitor.Messages.Dto.{
  NormalizedMessage, MessageDto, create_input, to_dto, target_not_found,
}

-- `typeByChannelId.get(id)`: where an id stands twice, the last entry counts.
abbrev pub type_by_channel_id : Text → List NotificationChannel → Option NotificationChannelType
type_by_channel_id id [] = none
type_by_channel_id id (c ∷ cs) = elim (type_by_channel_id id cs) [
  | some type ↦ some type
  | none ↦ if c.id == id then some c.type else none
]

module _ {D N R : Type 0} (sv : Services D N R) where
  -- The loop over the created tasks.
  unfoldable pub enqueue_all :
      List NotificationChannel → List CreatedTask → Action (World D N R) (Unit {0})
  enqueue_all channels [] = return tt
  enqueue_all channels (t ∷ ts) =
      let rest = enqueue_all channels ts in
      elim (type_by_channel_id t.channel_id channels) [
        | none ↦ rest
        | some type ↦ enqueue_task sv t.id type >> rest
      ]

  unfoldable pub route_to : Text → List NotificationChannel → Action (World D N R) (Unit {0})
  unfolding create_notification_tasks
  route_to message_id [] = return tt
  route_to message_id (c ∷ cs) = do
    created ← on_db (create_notification_tasks sv.prisma message_id (map (λ ch. ch.id) (c ∷ cs)))
    enqueue_all (c ∷ cs) created

  unfoldable pub route_to_enabled_channels : Text → Action (World D N R) (Unit {0})
  unfolding find_enabled_notification_channels route_to
  route_to_enabled_channels message_id = do
    channels ← on_db (find_enabled_notification_channels sv.prisma)
    route_to message_id channels

  unfoldable pub resolve_target : NormalizedMessage → Action (World D N R) MonitorTarget
  unfolding find_target_by_type_external_id
  resolve_target input = do
    found ←
        on_db (find_target_by_type_external_id sv.prisma input.target_type input.target_external_id)
    or_throw (target_not_found input.target_type input.target_external_id) found

  find_again : NormalizedMessage → Exception → Action (World D N R) (MessageWithTarget × Bool)
  unfolding find_unique_by_source_external_id
  find_again input cause = do
    deduped ← on_db (find_unique_by_source_external_id sv.prisma input.source input.external_id)
    m ← or_throw cause deduped
    return (m, false)

  -- The `catch` around the insert.
  unfoldable pub deduplicate :
      NormalizedMessage → Exception → Action (World D N R) (MessageWithTarget × Bool)
  unfolding find_again is_prisma_unique_violation
  deduplicate input cause =
      if is_prisma_unique_violation cause then find_again input cause else throw cause

  unfoldable pub insert :
      NormalizedMessage → MonitorTarget → Action (World D N R) (MessageWithTarget × Bool)
  unfolding create_message create_input
  insert input target = do
    m ← on_db (create_message sv.prisma (create_input input target))
    return (m, true)

  -- What other clients commit to the database between the look-up and the insert.
  abbrev interleave : (D → D) → Action (World D N R) (Unit {0})
  interleave others s = (ok tt, record s { db = others s.db })

  -- The message, and whether it is new.
  unfoldable pub save :
      (D → D)
      → NormalizedMessage
      → MonitorTarget
      → Option MessageWithTarget
      → Action (World D N R) (MessageWithTarget × Bool)
  unfolding insert
  save others input target (some existing) = return (existing, false)
  save others input target none =
      interleave others >> catch (insert input target) (deduplicate input)

  unfoldable pub announce :
      NormalizedMessage → MonitorTarget → MessageWithTarget × Bool → Action (World D N R) (Unit {0})
  unfolding update_target_last_message_at emit
  announce input target (m, true) = do
    _ ← on_db (update_target_last_message_at sv.prisma target.id input.published_at)
    emit sv (message_created m.message.id m.message.source m.target.name)
  announce input target (m, false) = return tt

  unfoldable pub create : (D → D) → NormalizedMessage → Action (World D N R) MessageDto
  create others input = do
    target ← resolve_target input
    existing ← on_db (find_unique_by_source_external_id sv.prisma input.source input.external_id)
    saved ← save others input target existing
    announce input target saved
    route_to_enabled_channels saved.0.message.id
    return (to_dto saved.0)
