-- ===== src/Messages/Create/Store.antt =====
-- A small database that meets the laws of `create`, for the tests: one target, three channels
-- of which two are enabled, and messages and tasks as functions of their keys.
use social_monitor.Prelude.{
  ℕ, ◌+◌, ◌≡◌, refl, ap, Text, text, ◌==◌, ==_refl, Bool, true, false, not, ◌&&◌, ◌||◌, List, [],
  ◌∷◌, map, filter, Option, none, some, arith, if◌then◌else◌,
}
use social_monitor.Core.{known_request, Result, ok, err}
use social_monitor.Schema.{
  MonitorType, MessageSource, NotificationChannelType, MonitorTarget, ChannelConfig,
  NotificationChannel, same_monitor_type, tg_group,
}
use social_monitor.Schema
use social_monitor.Database.{
  Prisma, MessageWithTarget, MessageData, CreatedTask, TargetKey, MessageKey, by_type_external_id,
  by_source_external_id,
}
use social_monitor.Core.{or_default}
use social_monitor.Fixtures.{offline}
use social_monitor.Queue.{contains}
use social_monitor.Queue.Routing.{IsDistinct}
use social_monitor.Messages.Create.Laws.{
  MessageLaws, matches_channel, message_of_data, touched, touch_message, touch_target, same_source,
  ids,
}
use social_monitor.Messages.Repository.{
  find_target_by_type_external_id, find_unique_by_source_external_id, create_message,
  update_target_last_message_at, create_notification_tasks,
}

pub record Store : Type 0 where
  pub target : MonitorTarget
  pub message : MessageSource → Text → Option MessageWithTarget
  pub tasked : Text → Text → Bool
  pub next : ℕ

abbrev pub channel : Text → NotificationChannelType → NotificationChannel
channel id type = record {
  id = id;
  name = id;
  type = type;
  enabled = true;
  config = record { bot_token = none; chat_id = none; webhook_url = none; group_openid = none };
}

abbrev pub both_channels : List NotificationChannel
both_channels =
    channel (text "c1") Schema.NotificationChannelType.telegram
    ∷ channel (text "c2") Schema.NotificationChannelType.qq
    ∷ []

-- The table of the channels: one is switched off.
abbrev pub all_channels : List NotificationChannel
all_channels =
    record (channel (text "c0") Schema.NotificationChannelType.qq) { enabled = false }
    ∷ both_channels

abbrev pub fresh_id : Store → Text
fresh_id d = b'm' ∷ d.next ∷ []

unfoldable pub target_in : MonitorType → Text → Store → Option MonitorTarget
target_in type e d =
    if same_monitor_type type d.target.type && e == d.target.external_id
    then some d.target
    else none

abbrev pub find_target_in : TargetKey → Store → Option MonitorTarget
find_target_in (by_type_external_id type e) d = target_in type e d
find_target_in (TargetKey.by_id id) d = none

abbrev pub find_message_in : MessageKey → Store → Option MessageWithTarget
find_message_in (by_source_external_id s e) d = d.message s e
find_message_in (MessageKey.by_id id) d = none

abbrev pub made : MessageData → Store → MessageWithTarget
made v d = record { message = message_of_data (fresh_id d) v; target = d.target }

abbrev pub with_message : MessageData → Store → Store
with_message v d = record d {
  message = λ s k.
      if same_source v.source s && v.external_id == k then some (made v d) else d.message s k;
  next = d.next + 1;
}

abbrev pub insert_in :
    MessageData → Store → Option MessageWithTarget → Result MessageWithTarget × Store
insert_in v d (some m) = (err (known_request (text "P2002") (text "Unique constraint failed")), d)
insert_in v d none = (ok (made v d), with_message v d)

abbrev pub touch : Text → ℕ → Store → Store
touch id at d = record d {
  target = touched id at d.target;
  message = λ s k. touch_message id at (d.message s k);
}

abbrev pub listed : Text → Text → List (Text × Text) → Bool
listed m c [] = false
listed m c ((n, e) ∷ ps) = n == m && e == c || listed m c ps

abbrev pub batch : List (Text × Text) → Store → List CreatedTask
batch [] d = []
batch ((m, c) ∷ ps) d =
    let rest = batch ps d in if d.tasked m c then rest else record { id = c; channel_id = c } ∷ rest

abbrev pub target_of_chat : Text → Store → Option MonitorTarget
target_of_chat e d = if e == d.target.external_id then some d.target else none

abbrev pub message_store : Prisma Store
message_store = record (offline Store) {
  target_find_unique = λ key d. (ok (find_target_in key d), d);
  target_find_first = λ args d. (ok (target_of_chat args.external_id d), d);
  target_update = λ id values d. (
    ok (touched id (or_default values.last_message_at 0) d.target),
    touch id (or_default values.last_message_at 0) d,
  );
  message_find_unique = λ key d. (ok (find_message_in key d), d);
  message_create = λ v d. insert_in v d (d.message v.source v.external_id);
  channel_find_many = λ args d. (ok (filter (matches_channel args.filter) all_channels), d);
  task_create_many =
      λ ps d. (ok (batch ps d), record d { tasked = λ m c. d.tasked m c || listed m c ps });
}

abbrev pub pairs : Text → List Text → List (Text × Text)
pairs m = map (λ c. (m, c))

listed_lem : (m c : Text) (cs : List Text) → contains c cs ≡ true → listed m c (pairs m cs) ≡ true
listed_lem m c [] h = cc
listed_lem m c (e ∷ cs) h = ground (arith, ==_refl m, listed_lem m c cs)

pub batch_lem :
    (m : Text) (cs : List Text) (d : Store)
    → map (λ t. t.channel_id) (batch (pairs m cs) d) ≡ filter (λ c. not (d.tasked m c)) cs
batch_lem m [] d = refl
batch_lem m (c ∷ cs) d = ground (arith, batch_lem m cs d)

-- The only target is the one that a look-up finds.
found_in :
    (type : MonitorType) (e : Text) (d : Store) (t : MonitorTarget)
    → target_in type e d ≡ some t
    → d.target ≡ t
unfolding target_in
found_in type e d t h = ground arith

touch_target_in :
    (id : Text) (at : ℕ) (d : Store) (type : MonitorType) (e : Text)
    → target_in type e (touch id at d) ≡ touch_target id at (target_in type e d)
unfolding target_in
touch_target_in id at d type e = ground arith

pub conflict_in :
    (v : MessageData) (d : Store) (m : MessageWithTarget)
    → d.message v.source v.external_id ≡ some m
    → create_message message_store v d
      ≡ (err (known_request (text "P2002") (text "Unique constraint failed")), d)
unfolding create_message
conflict_in v d m h = rw h

pub answer_in :
    (v : MessageData) (d : Store) (type : MonitorType) (e : Text) (t : MonitorTarget)
    → d.message v.source v.external_id ≡ none
    → target_in type e d ≡ some t
    → (create_message message_store v d).0
      ≡ ok (record { message = message_of_data (fresh_id d) v; target = t })
unfolding create_message
answer_in v d type e t n h = rw (n, found_in type e d t h)

pub row_in :
    (v : MessageData) (d : Store) (type : MonitorType) (e : Text) (t : MonitorTarget)
    (s : MessageSource) (k : Text)
    → d.message v.source v.external_id ≡ none
    → target_in type e d ≡ some t
    → (create_message message_store v d).1.message s k ≡ (
        if same_source v.source s && v.external_id == k
        then some (record { message = message_of_data (fresh_id d) v; target = t })
        else d.message s k)
unfolding create_message
row_in v d type e t s k n h = rw (n, found_in type e d t h)

target_kept : (v : MessageData) (d : Store) → (create_message message_store v d).1.target ≡ d.target
unfolding create_message
target_kept v d = ground arith

pub kept_targets :
    (v : MessageData) (d : Store) (type : MonitorType) (e : Text)
    → target_in type e (create_message message_store v d).1 ≡ target_in type e d
unfolding target_in
kept_targets v d type e = rw (target_kept v d)

pub touched_answer :
    (id : Text) (at : ℕ) (d : Store) (type : MonitorType) (e : Text) (t : MonitorTarget)
    → target_in type e d ≡ some t
    → (update_target_last_message_at message_store id at d).0 ≡ ok (touched id at t)
unfolding update_target_last_message_at
touched_answer id at d type e t h = ap (λ r. ok (touched id at r)) (found_in type e d t h)

pub tasked_in :
    (m : Text) (cs : List Text) (d : Store) (c : Text)
    → contains c cs ≡ true
    → (create_notification_tasks message_store m cs d).1.tasked m c ≡ true
unfolding create_notification_tasks
tasked_in m cs d c h = ground (arith, listed_lem m c cs h)

pub read_target :
    (type : MonitorType) (e : Text) (d : Store)
    → find_target_by_type_external_id message_store type e d ≡ (ok (target_in type e d), d)
unfolding find_target_by_type_external_id
read_target type e d = refl

pub read_message :
    (s : MessageSource) (e : Text) (d : Store)
    → find_unique_by_source_external_id message_store s e d ≡ (ok (d.message s e), d)
unfolding find_unique_by_source_external_id
read_message s e d = refl

pub two_ids : IsDistinct (ids both_channels)
unfolding ◌==◌
two_ids = (refl, (refl, tt))

pub touched_targets :
    (id : Text) (at : ℕ) (d : Store) (type : MonitorType) (e : Text)
    → target_in type e (update_target_last_message_at message_store id at d).1
      ≡ touch_target id at (target_in type e d)
unfolding update_target_last_message_at
touched_targets = touch_target_in

pub touched_messages :
    (id : Text) (at : ℕ) (d : Store) (s : MessageSource) (k : Text)
    → (update_target_last_message_at message_store id at d).1.message s k
      ≡ touch_message id at (d.message s k)
unfolding update_target_last_message_at
touched_messages id at d s k = refl

pub batch_answer :
    (m : Text) (cs : List Text) (d : Store)
    → (create_notification_tasks message_store m cs d).0 ≡ ok (batch (pairs m cs) d)
unfolding create_notification_tasks
batch_answer m cs d = refl

pub batch_targets :
    (m : Text) (cs : List Text) (d : Store) (type : MonitorType) (e : Text)
    → target_in type e (create_notification_tasks message_store m cs d).1 ≡ target_in type e d
unfolding create_notification_tasks target_in
batch_targets m cs d type e = refl

pub batch_messages :
    (m : Text) (cs : List Text) (d : Store) (s : MessageSource) (k : Text)
    → (create_notification_tasks message_store m cs d).1.message s k ≡ d.message s k
unfolding create_notification_tasks
batch_messages m cs d s k = refl

abbrev pub message_store-laws : MessageLaws message_store
message_store-laws = record {
  target_at = target_in;
  message_at = λ s k d. d.message s k;
  channel_rows = λ d. all_channels;
  tasked = λ m c d. d.tasked m c;
  fresh = fresh_id;
  new_tasks = λ m cs d. batch (pairs m cs) d;
  channels_distinct = λ d. two_ids;
  find_target = read_target;
  find_message = read_message;
  find_channels = λ w d. refl;
  create_conflict = conflict_in;
  create_answer = λ v d type e t n h same. answer_in v d type e t n h;
  create_row = λ v d type e t s k n h same. row_in v d type e t s k n h;
  create_targets = kept_targets;
  create_channels = λ v d. refl;
  touch_answer = λ id at d type e t h same. touched_answer id at d type e t h;
  touch_targets = touched_targets;
  touch_messages = touched_messages;
  touch_channels = λ id at d. refl;
  tasks_answer = batch_answer;
  tasks_new = λ m cs d distinct. batch_lem m cs d;
  tasks_tasked = tasked_in;
  tasks_targets = batch_targets;
  tasks_messages = batch_messages;
  tasks_channels = λ m cs d. refl;
}
