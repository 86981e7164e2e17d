-- ===== src/Web/Feed/Samples.antt =====
-- Messages for the tests of the feed.
use social_monitor.Prelude.{Text, text, none}
use social_monitor.Schema.{MessageSource}
use social_monitor.Messages.Dto.{MessageDto}

abbrev pub shown : Text → MessageDto
shown id = record {
  id = id;
  source = MessageSource.x;
  target = record { id = text "t1"; name = text "Jack" };
  author = none;
  content = text "hi";
  url = none;
  published_at = 5;
}
