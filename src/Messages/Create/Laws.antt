-- ===== src/Messages/Create/Laws.antt =====
-- What `create` relies on from the database client, for a database that answers: reads give what is
-- stored; an insert under a taken (source, externalId) is refused with P2002 and one under a free
-- pair adds a row; a batch of tasks adds those whose (messageId, channelId) is free and gives back
-- just these; and each write leaves the other tables alone.
use social_monitor.Prelude.{
  ℕ, ◌≡◌, Text, text, ◌==◌, Bool, true, false, not, ◌&&◌, List, map, filter, Option, none, some,
  if◌then◌else◌,
}
use social_monitor.Core.{known_request, ok, err}
use social_monitor.Schema.{
  MonitorType, MessageSource, x, telegram, MonitorTarget, Message, NotificationChannel,
  NotificationChannelType,
}
use social_monitor.Database.{
  ChannelWhere, unordered, Prisma, MessageWithTarget, MessageData, CreatedTask,
}
use social_monitor.Queue.{contains}
use social_monitor.Queue.Routing.{IsDistinct}
use social_monitor.Messages.Repository.{
  find_target_by_type_external_id, find_unique_by_source_external_id, create_message,
  update_target_last_message_at, find_enabled_notification_channels, create_notification_tasks,
}

abbrev pub same_source : MessageSource → MessageSource → Bool
same_source x x = true
same_source telegram telegram = true
same_source _ _ = false

-- The row that an insert makes, under a fresh id.
abbrev pub message_of_data : Text → MessageData → Message
message_of_data id d = record {
  id = id;
  source = d.source;
  external_id = d.external_id;
  target_id = d.target_id;
  author_external_id = d.author_external_id;
  author_username = d.author_username;
  author_name = d.author_name;
  content = d.content;
  url = d.url;
  published_at = d.published_at;
}

abbrev pub touched : Text → ℕ → MonitorTarget → MonitorTarget
touched id at t = if t.id == id then record t { last_message_at = some at } else t

abbrev pub touch_target : Text → ℕ → Option MonitorTarget → Option MonitorTarget
touch_target id at none = none
touch_target id at (some t) = some (touched id at t)

abbrev pub touch_message : Text → ℕ → Option MessageWithTarget → Option MessageWithTarget
touch_message id at none = none
touch_message id at (some m) = some (record m { target = touched id at m.target })

abbrev pub ids : List NotificationChannel → List Text
ids = map (λ c. c.id)

-- The channels that a query's `where` is for.
abbrev same_channel_type : NotificationChannelType → NotificationChannelType → Bool
same_channel_type NotificationChannelType.telegram NotificationChannelType.telegram = true
same_channel_type NotificationChannelType.wechat NotificationChannelType.wechat = true
same_channel_type NotificationChannelType.qq NotificationChannelType.qq = true
same_channel_type _ _ = false

abbrev of_type : Option NotificationChannelType → NotificationChannel → Bool
of_type none c = true
of_type (some type) c = same_channel_type type c.type

abbrev with_enabled : Option Bool → NotificationChannel → Bool
with_enabled none c = true
with_enabled (some true) c = c.enabled
with_enabled (some false) c = not c.enabled

abbrev pub matches_channel : ChannelWhere → NotificationChannel → Bool
matches_channel w c = of_type w.type c && with_enabled w.enabled c

-- The channels that are switched on.
abbrev pub switched_on : List NotificationChannel → List NotificationChannel
switched_on = filter (λ c. c.enabled)

pub record MessageLaws {D : Type 0} (p : Prisma D) : Type 0 where
  -- What is stored.
  pub target_at : MonitorType → Text → D → Option MonitorTarget
  pub message_at : MessageSource → Text → D → Option MessageWithTarget
  pub channel_rows : D → List NotificationChannel
  pub tasked : Text → Text → D → Bool
  -- The id of the next insert, and the tasks that a batch makes.
  pub fresh : D → Text
  pub new_tasks : Text → List Text → D → List CreatedTask
  pub channels_distinct : (d : D) → IsDistinct (ids (switched_on (channel_rows d)))
  pub find_target :
      (type : MonitorType) (e : Text) (d : D)
      → find_target_by_type_external_id p type e d ≡ (ok (target_at type e d), d)
  pub find_message :
      (s : MessageSource) (e : Text) (d : D)
      → find_unique_by_source_external_id p s e d ≡ (ok (message_at s e d), d)
  pub find_channels :
      (w : ChannelWhere) (d : D)
      → p.channel_find_many (record { filter = w; order_by = unordered; skip = 0; take = none }) d
        ≡ (ok (filter (matches_channel w) (channel_rows d)), d)
  -- Inserting a message.
  pub create_conflict :
      (v : MessageData) (d : D) (m : MessageWithTarget)
      → message_at v.source v.external_id d ≡ some m
      → create_message p v d
        ≡ (err (known_request (text "P2002") (text "Unique constraint failed")), d)
  pub create_answer :
      (v : MessageData) (d : D) (type : MonitorType) (e : Text) (t : MonitorTarget)
      → message_at v.source v.external_id d ≡ none
      → target_at type e d ≡ some t
      → t.id ≡ v.target_id
      → (create_message p v d).0 ≡ ok (record { message = message_of_data (fresh d) v; target = t })
  pub create_row :
      (v : MessageData) (d : D) (type : MonitorType) (e : Text) (t : MonitorTarget)
      (s : MessageSource) (k : Text)
      → message_at v.source v.external_id d ≡ none
      → target_at type e d ≡ some t
      → t.id ≡ v.target_id
      → message_at s k (create_message p v d).1 ≡ (
          if same_source v.source s && v.external_id == k
          then some (record { message = message_of_data (fresh d) v; target = t })
          else message_at s k d)
  pub create_targets :
      (v : MessageData) (d : D) (type : MonitorType) (e : Text)
      → target_at type e (create_message p v d).1 ≡ target_at type e d
  pub create_channels :
      (v : MessageData) (d : D) → channel_rows (create_message p v d).1 ≡ channel_rows d
  -- The time of a target's last message.
  pub touch_answer :
      (id : Text) (at : ℕ) (d : D) (type : MonitorType) (e : Text) (t : MonitorTarget)
      → target_at type e d ≡ some t
      → t.id ≡ id
      → (update_target_last_message_at p id at d).0 ≡ ok (touched id at t)
  pub touch_targets :
      (id : Text) (at : ℕ) (d : D) (type : MonitorType) (e : Text)
      → target_at type e (update_target_last_message_at p id at d).1
        ≡ touch_target id at (target_at type e d)
  pub touch_messages :
      (id : Text) (at : ℕ) (d : D) (s : MessageSource) (k : Text)
      → message_at s k (update_target_last_message_at p id at d).1
        ≡ touch_message id at (message_at s k d)
  pub touch_channels :
      (id : Text) (at : ℕ) (d : D)
      → channel_rows (update_target_last_message_at p id at d).1 ≡ channel_rows d
  -- A batch of tasks.
  pub tasks_answer :
      (m : Text) (cs : List Text) (d : D)
      → (create_notification_tasks p m cs d).0 ≡ ok (new_tasks m cs d)
  pub tasks_new :
      (m : Text) (cs : List Text) (d : D)
      → IsDistinct cs
      → map (λ t. t.channel_id) (new_tasks m cs d) ≡ filter (λ c. not (tasked m c d)) cs
  pub tasks_tasked :
      (m : Text) (cs : List Text) (d : D) (c : Text)
      → contains c cs ≡ true
      → tasked m c (create_notification_tasks p m cs d).1 ≡ true
  pub tasks_targets :
      (m : Text) (cs : List Text) (d : D) (type : MonitorType) (e : Text)
      → target_at type e (create_notification_tasks p m cs d).1 ≡ target_at type e d
  pub tasks_messages :
      (m : Text) (cs : List Text) (d : D) (s : MessageSource) (k : Text)
      → message_at s k (create_notification_tasks p m cs d).1 ≡ message_at s k d
  pub tasks_channels :
      (m : Text) (cs : List Text) (d : D)
      → channel_rows (create_notification_tasks p m cs d).1 ≡ channel_rows d

-- The channels of the database that are switched on.
abbrev pub enabled_channels :
    {D : Type 0} {p : Prisma D} → MessageLaws p → D → List NotificationChannel
enabled_channels laws d = switched_on (laws.channel_rows d)

pub find_enabled_lem :
    {D : Type 0} {p : Prisma D} (laws : MessageLaws p) (d : D)
    → find_enabled_notification_channels p d ≡ (ok (enabled_channels laws d), d)
unfolding find_enabled_notification_channels
find_enabled_lem laws d = laws.find_channels (record { type = none; enabled = some true }) d
