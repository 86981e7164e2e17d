-- ===== src/World.antt =====
-- The state that the services share, with events/sse.service.ts: the database, outgoing calls, the
-- job queues and the event bus.
use social_monitor.Prelude.{ℕ, Text, Bool, List, [], ◌∷◌, ◌++◌}
use social_monitor.Core.{Result, ok, Action}
use social_monitor.Schema.{MonitorType, MessageSource, NotificationChannelType}
use social_monitor.Net.{Network, Io}
use social_monitor.Database.{Prisma}

-- `queue.add(name, { taskId }, { attempts, backoff: { type: "exponential", delay } })`
pub record Job : Type 0 where
  pub queue : Text
  pub name : Text
  pub task_id : Text
  pub attempts : ℕ
  pub backoff_delay : ℕ

-- The events by their types, with their data.
pub data SseEventData : Type 0 where
  message_created : (id : Text) (source : MessageSource) (target_name : Text) → SseEventData
  notification_sent :
      (id : Text) (channel_type : NotificationChannelType) (attempts : ℕ) → SseEventData
  notification_failed :
      (id : Text) (channel_type : NotificationChannelType) (attempts : ℕ) (error : Text)
      → SseEventData
  monitor_status_changed : (id : Text) (enabled : Bool) (type : MonitorType) → SseEventData

pub record SseEvent : Type 0 where
  pub event : SseEventData
  pub timestamp : ℕ

-- BullMQ over Redis, as far as the program calls it.
pub record Bull (R : Type 0) : Type 0 where
  pub add : Job → Action R (Unit {0})

pub record Services (D N R : Type 0) : Type 0 where
  pub prisma : Prisma D
  pub network : Network N
  pub bull : Bull R

-- `queues` names the queues that the queue service has opened, `jobs` the calls of `add` that it
-- has made, `events` what the event bus has carried, each oldest first; `listening` holds the phones
-- that the Telegram listener has started.
pub record World (D N R : Type 0) : Type 0 where
  pub db : D
  pub io : Io N
  pub redis : R
  pub queues : List Text
  pub jobs : List Job
  pub events : List SseEvent
  pub listening : List Text

module _ {D N R : Type 0} where
  abbrev pub in_db : {A : Type 0} → World D N R → Result A × D → Result A × World D N R
  in_db s (r, d) = (r, record s { db = d })

  abbrev pub on_db : {A : Type 0} → Action D A → Action (World D N R) A
  on_db m s = in_db s (m s.db)

  abbrev pub in_io : {A : Type 0} → World D N R → Result A × Io N → Result A × World D N R
  in_io s (r, i) = (r, record s { io = i })

  abbrev pub on_io : {A : Type 0} → Action (Io N) A → Action (World D N R) A
  on_io m s = in_io s (m s.io)

  abbrev pub in_redis : {A : Type 0} → World D N R → Result A × R → Result A × World D N R
  in_redis s (r, b) = (r, record s { redis = b })

  abbrev pub on_redis : {A : Type 0} → Action R A → Action (World D N R) A
  on_redis m s = in_redis s (m s.redis)

module _ {D N R : Type 0} (sv : Services D N R) where
  abbrev pub world_now : World D N R → ℕ
  world_now s = sv.network.now s.io.net

  -- `SseService.emit`
  unfoldable pub emit : SseEventData → Action (World D N R) (Unit {0})
  emit e s = (
    ok tt,
    record s { events = s.events ++ (record { event = e; timestamp = world_now s } ∷ []) },
  )
