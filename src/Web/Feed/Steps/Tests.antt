-- ===== src/Web/Feed/Steps/Tests.antt =====
-- A run in which a message of the stream comes before the first page.
use social_monitor.Prelude.{◌≡◌, refl, text, true, [], ◌∷◌, arith}
use social_monitor.Core.{ok}
use social_monitor.Web.Feed.{Feed, initial, on_list, on_open, on_fetched}
use social_monitor.Web.Feed.Steps.{
  Reachable, mounted, opened, message_answered, list_answered, Bounded, Reachable-Bounded, distinct,
}
use social_monitor.Web.Feed.Samples.{shown}

abbrev late_page : Feed
late_page =
    on_list (ok (shown (text "m1") ∷ [])) (on_fetched (ok (shown (text "m2"))) (on_open initial))

one_differs : distinct (shown (text "m1") ∷ []) ≡ true
one_differs = refl

late_page-Reachable : Reachable late_page
late_page-Reachable =
    list_answered (on_fetched (ok (shown (text "m2"))) (on_open initial))
      (ok (shown (text "m1") ∷ [])) (omega arith, one_differs)
      (message_answered (on_open initial) (ok (shown (text "m2"))) (opened initial mounted))

Reachable-Bounded_example : Bounded late_page.messages
Reachable-Bounded_example = Reachable-Bounded late_page late_page-Reachable
