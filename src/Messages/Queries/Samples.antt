-- ===== src/Messages/Queries/Samples.antt =====
-- A table of messages, for the tests of the lists.
use social_monitor.Prelude.{
  refl, ℕ, text, true, List, [], ◌∷◌, Option, none, some, length, take, drop,
}
use social_monitor.Core.{ok}
use social_monitor.Schema.{x, MonitorTarget, x_user}
use social_monitor.Database.{Prisma, MessageWithTarget}
use social_monitor.Fixtures.{offline}
use social_monitor.Messages.Queries.Pages.{ListLaws, by_time}

abbrev pub Rows : Type 0
Rows = List MessageWithTarget

abbrev pub cut : ℕ → Option ℕ → Rows → Rows
cut skip none rows = drop skip rows
cut skip (some n) rows = take n (drop skip rows)

-- A table whose every row matches.
abbrev pub table : Prisma Rows
table = record (offline Rows) {
  message_find_many = λ args rows. (ok (cut args.skip args.take (by_time rows)), rows);
  message_count = λ f rows. (ok (length rows), rows);
}

abbrev pub table_list_laws : ListLaws table
table_list_laws = record {
  matching = λ f rows. rows;
  find_lem = λ f skip n rows h. refl;
  count_lem = λ f rows. refl;
}

abbrev pub target : MonitorTarget
target = record {
  id = text "t1";
  type = x_user;
  name = text "Jack";
  username = some (text "jack");
  external_id = text "12";
  enabled = true;
  last_message_at = none;
}

abbrev pub row : ℕ → MessageWithTarget
row at = record {
  message = record {
    id = text "m";
    source = x;
    external_id = text "e";
    target_id = text "t1";
    author_external_id = none;
    author_username = none;
    author_name = none;
    content = text "hi";
    url = none;
    published_at = at;
  };
  target = target;
}

abbrev pub rows : Rows
rows = row 20 ∷ row 30 ∷ row 10 ∷ []
