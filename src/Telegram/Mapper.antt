-- ===== src/Telegram/Mapper.antt =====
-- telegram/telegram-mapper.ts: a raw Telegram message as a normalized one.
use social_monitor.Prelude.{
  ℕ, ◌*◌, Text, text, ◌++◌, trim, join, truthy, nonempty?, show, List, [], ◌∷◌, Option, none, some,
  if◌then◌else◌,
}
use social_monitor.Core.{or_default}
use social_monitor.Schema.{MonitorTarget, MessageSource}
use social_monitor.Schema
use social_monitor.Messages.Dto.{Author, NormalizedMessage}

pub record RawTelegramSender : Type 0 where
  pub id : Option Text
  pub username : Option Text
  pub first_name : Option Text
  pub last_name : Option Text

-- `date` counts seconds.
pub record RawTelegramMessage : Type 0 where
  pub chat_id : Text
  pub message_id : ℕ
  pub content : Option Text
  pub date : ℕ
  pub sender : Option RawTelegramSender

-- `[...].filter(Boolean)`
abbrev pub truthy_names : List (Option Text) → List Text
truthy_names [] = []
truthy_names (none ∷ rest) = truthy_names rest
truthy_names (some s ∷ rest) =
    let names = truthy_names rest in if truthy (some s) then s ∷ names else names

unfoldable pub display_name : RawTelegramSender → Option Text
unfolding trim join
display_name s = nonempty? (trim (join (text " ") (truthy_names (s.first_name ∷ s.last_name ∷ []))))

unfoldable pub author_of : Option RawTelegramSender → Option Author
author_of none = none
author_of (some s) =
    some (record { external_id = s.id; username = s.username; display_name = display_name s })

unfoldable pub to_normalized_message : MonitorTarget → RawTelegramMessage → Text → NormalizedMessage
to_normalized_message target m external_id = record {
  source = Schema.MessageSource.telegram;
  external_id = external_id;
  target_external_id = target.external_id;
  target_type = target.type;
  target_name = target.name;
  author = author_of m.sender;
  content = or_default m.content [];
  url = none;
  published_at = m.date * 1000;
}

unfoldable pub build_external_id : Text → ℕ → Text
unfolding show
build_external_id chat_id message_id = chat_id ++ (text ":" ++ show message_id)
