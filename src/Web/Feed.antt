-- ===== src/Web/Feed.antt =====
-- apps/web/app/dashboard/latest-messages.tsx: the feed of the latest messages. The answers of the API
-- and the frames of the event stream come as events, in any order.
pub mod Steps
mod Delivery
mod Samples
use social_monitor.Prelude.{
  ℕ, Text, text, ◌==◌, nonempty, Bool, true, false, not, ◌||◌, List, [], ◌∷◌, take, Option, none,
  some, if◌then◌else◌,
}
use social_monitor.Core.{Exception, Result, ok, err, message_of}
use social_monitor.Schema.{MessageSource}
use social_monitor.Schema
use social_monitor.Messages.Dto.{MessageDto, Author}

abbrev pub max_items : ℕ
max_items = 20

-- The state of the component; `cancelled` is that of its first effect.
pub record Feed : Type 0 where
  pub messages : List MessageDto
  pub connected : Bool
  pub error : Option Text
  pub cancelled : Bool

abbrev pub initial : Feed
initial = record { messages = []; connected = false; error = none; cancelled = false }

-- A frame that parses: its type, and `data?.id`.
pub record Frame : Type 0 where
  pub type : Text
  pub id : Option Text

abbrev pub source_badge : MessageSource → Text
source_badge Schema.MessageSource.x = text "X"
source_badge Schema.MessageSource.telegram = text "TG"

-- `a || b` on members that may be absent, with `null` for none of them.
abbrev first_given : Option Text → Option Text → Option Text
first_given none b = b
first_given (some a) b = if nonempty a then some a else b

abbrev nonempty_or_null : Option Text → Option Text
nonempty_or_null a = first_given a none

unfoldable pub author_label : Option Author → Option Text
author_label none = none
author_label (some a) =
    first_given a.display_name (first_given a.username (nonempty_or_null a.external_id))

-- `prev.some((item) => item.id === id)`
abbrev pub has_id : Text → List MessageDto → Bool
has_id id [] = false
has_id id (m ∷ ms) = m.id == id || has_id id ms

unfoldable pub insert_message : MessageDto → List MessageDto → List MessageDto
insert_message m prev = if has_id m.id prev then prev else take max_items (m ∷ prev)

-- The answer to the first request.
unfoldable pub on_list : Result (List MessageDto) → Feed → Feed
on_list (ok items) f = if f.cancelled then f else record f { messages = items }
on_list (err e) f = if f.cancelled then f else record f { error = some (message_of e) }

unfoldable pub on_open : Feed → Feed
on_open f = record f { connected = true }

unfoldable pub on_error : Feed → Feed
on_error f = record f { connected = false }

-- The id to fetch, for a frame that parses or not.
abbrev pub given_id : Option Text → Option Text
given_id none = none
given_id (some id) = if nonempty id then some id else none

unfoldable pub on_frame : Option Frame → Option Text
on_frame none = none
on_frame (some e) = if not (e.type == text "message.created") then none else given_id e.id

-- `fetchMessage`, by what the API answered.
unfoldable pub fetch_message : Result MessageDto → Option MessageDto
fetch_message (ok m) = some m
fetch_message (err e) = none

-- The continuation of a fetch.
abbrev pub fetched : Option MessageDto → Feed → Feed
unfolding insert_message
fetched none f = f
fetched (some m) f = record f { messages = insert_message m f.messages }

unfoldable pub on_fetched : Result MessageDto → Feed → Feed
unfolding fetch_message
on_fetched r f = fetched (fetch_message r) f

-- The clean-up of the first effect.
unfoldable pub on_unmount : Feed → Feed
on_unmount f = record f { cancelled = true }
