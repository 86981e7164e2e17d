-- ===== src/Telegram/Ingest.antt =====
-- telegram/telegram-ingest.controller.ts: the endpoint that the Telegram worker posts to. Logging is
-- left out.
pub mod Repeated
use social_monitor.Prelude.{
  ℕ, Text, text, ◌==◌, nonempty, Bool, true, false, not, ◌||◌, Option, none, some, if◌then◌else◌,
}
use social_monitor.Core.{
  Exception, unauthorized, http, Result, ok, err, Action, ◌>>=◌, continue, return, throw,
}
use social_monitor.Schema.{MonitorTarget}
use social_monitor.World.{Services, World, on_db, in_db}
use social_monitor.Messages.Dto.{MessageDto, NormalizedMessage}
use social_monitor.Messages.Repository.{find_telegram_target_by_external_id}
use social_monitor.Messages.Create.{create}
use social_monitor.Telegram.Mapper.{RawTelegramMessage, to_normalized_message, build_external_id}

pub record IngestAnswer : Type 0 where
  pub ingested : Bool
  pub message_id : Option Text
  pub reason : Option Text

abbrev pub invalid_secret : Exception
invalid_secret =
    http unauthorized 401 (text "Invalid internal secret") (text "TELEGRAM_INGEST_UNAUTHORIZED")

abbrev pub not_monitored : IngestAnswer
not_monitored = record {
  ingested = false;
  message_id = none;
  reason = some (text "target_not_monitored");
}

abbrev pub stored_as : Text → IngestAnswer
stored_as id = record { ingested = true; message_id = some id; reason = none }

abbrev pub ingest_failed : IngestAnswer
ingest_failed = record { ingested = false; message_id = none; reason = some (text "ingest_failed") }

abbrev pub has_secret : Text → Option Text → Bool
has_secret expected none = false
has_secret expected (some s) = s == expected

-- The message that a payload stands for, in a chat that is monitored.
unfoldable pub normalized : MonitorTarget → RawTelegramMessage → NormalizedMessage
normalized target payload =
    to_normalized_message target payload (build_external_id payload.chat_id payload.message_id)

module _ {D N R : Type 0} (sv : Services D N R) where
  -- The `try` and its `catch`.
  abbrev pub answered : Result MessageDto × World D N R → Result IngestAnswer × World D N R
  answered (ok saved, s) = (ok (stored_as saved.id), s)
  answered (err e, s) = (ok ingest_failed, s)

  abbrev pub ingest_for :
      (D → D) → RawTelegramMessage → Option MonitorTarget → Action (World D N R) IngestAnswer
  ingest_for others payload none s = (ok not_monitored, s)
  ingest_for others payload (some target) s =
      answered (create sv others (normalized target payload) s)

  look_up : Text → Action (World D N R) (Option MonitorTarget)
  unfolding find_telegram_target_by_external_id
  look_up chat_id = on_db (find_telegram_target_by_external_id sv.prisma chat_id)

  unfoldable pub ingest_payload : (D → D) → RawTelegramMessage → Action (World D N R) IngestAnswer
  unfolding look_up
  ingest_payload others payload = do
    target ← look_up payload.chat_id
    ingest_for others payload target

  -- `ingest`, with the configured secret and the header.
  unfoldable pub ingest :
      (D → D) → Text → Option Text → RawTelegramMessage → Action (World D N R) IngestAnswer
  ingest others expected secret payload =
      let accepted = ingest_payload others payload in
      if not (nonempty expected) || not (has_secret expected secret)
      then throw invalid_secret
      else accepted
