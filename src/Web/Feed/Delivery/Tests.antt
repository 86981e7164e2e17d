-- ===== src/Web/Feed/Delivery/Tests.antt =====
-- Two messages after the first page.
use social_monitor.Prelude.{◌≡◌, refl, text, ◌==◌, List, [], ◌∷◌, ◌++◌, reverse, take, true, arith}
use social_monitor.Core.{ok}
use social_monitor.Messages.Dto.{MessageDto}
use social_monitor.Web.Feed.{initial, max_items, on_list}
use social_monitor.Web.Feed.Delivery.{deliver, deliver-newest}
use social_monitor.Web.Feed.Steps.{distinct}
use social_monitor.Web.Feed.Samples.{shown}

abbrev page : List MessageDto
page = shown (text "m2") ∷ shown (text "m1") ∷ []

abbrev stream : List MessageDto
stream = shown (text "m3") ∷ shown (text "m4") ∷ []

differ : distinct (reverse stream ++ page) ≡ true
unfolding ◌==◌
differ = refl

deliver-newest_example :
    (deliver stream (on_list (ok page) initial)).messages ≡ take max_items (reverse stream ++ page)
deliver-newest_example = deliver-newest page stream (omega arith) differ
