-- ===== src/Format.antt =====
-- notifications/message-format.ts, and the payload of notification-provider.interface.ts.
pub mod Shape
mod Tests
use social_monitor.Prelude.{
  ℕ, ◌-◌, Text, text, nonempty, truthy, or_null, join, List, [], ◌∷◌, ◌++◌, Option, none, some, leb,
  length, take, if◌then◌else◌,
}

pub record NotificationPayload : Type 0 where
  pub source_label : Text
  pub target_name : Text
  pub author : Text
  pub content : Text
  pub url : Option Text

-- `【${s}】`
abbrev pub bracketed : Text → Text
bracketed s = text "【" ++ (s ++ text "】")

-- The lines of the text, in the order in which they are pushed.
unfoldable pub forward_lines : NotificationPayload → List Text
forward_lines p =
    bracketed p.source_label
    ∷ bracketed p.target_name
    ∷ ((if nonempty p.author then bracketed p.author ∷ [] else [])
        ++ (p.content ∷ (if truthy p.url then (text "原文：" ++ or_null p.url []) ∷ [] else [])))

abbrev pub newline : Text
newline = 10 ∷ []

-- `s.slice(0, m - 3)`: an end below zero counts from the back.
abbrev pub slice_to_less_three : Text → ℕ → Text
slice_to_less_three s m = if leb 3 m then take (m - 3) s else take (length s - (3 - m)) s

unfoldable pub truncate : Text → ℕ → Text
truncate s m = if leb (length s) m then s else slice_to_less_three s m ++ text "..."

unfoldable pub build_forward_text : NotificationPayload → ℕ → Text
unfolding forward_lines truncate join
build_forward_text p max_length = truncate (join newline (forward_lines p)) max_length
