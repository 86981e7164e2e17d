-- ===== src/Format/Shape.antt =====
-- The length and the shape of the text that notifications/message-format.ts builds.
use social_monitor.Prelude.{
  ℕ, ◌+◌, ◌-◌, text, take, take-append_left, take_idem, ◌∙◌, nonempty, truthy, if◌then◌else◌, ◌≤◌,
  ◌≡◌, Text, join, length, length-take, length-append, arith, min, leb, le→leb, Bool-cases, inl,
  inr,
}
use social_monitor.Format.{
  NotificationPayload, forward_lines, newline, truncate, build_forward_text,
}

-- The whole text, before it is cut.
abbrev pub full_text : NotificationPayload → Text
full_text p = join newline (forward_lines p)

length-truncate : (s : Text) (m : ℕ) → 3 ≤ m → length (truncate s m) ≡ min (length s) m
unfolding truncate
length-truncate s m h = elim (Bool-cases (leb (length s) m)) [
  | inl e ↦ rw e (ground arith)
  | inr e ↦ rw (e, le→leb 3 m h, length-append, length-take) (ground arith)
]

-- The text of a payload has the length of its lines joined, and never more than the limit, for
-- every limit that leaves room for the three dots.
pub length-build_forward_text :
    (p : NotificationPayload) (m : ℕ)
    → 3 ≤ m
    → length (build_forward_text p m) ≡ min (length (full_text p)) m
unfolding build_forward_text
length-build_forward_text p m h = length-truncate (full_text p) m h

truncate_head : (s : Text) (m : ℕ) → 3 ≤ m → take (m - 3) (truncate s m) ≡ take (m - 3) s
unfolding truncate
truncate_head s m h = elim (Bool-cases (leb (length s) m)) [
  | inl e ↦ rw e
  | inr e ↦
      rw (e, le→leb 3 m h)
        (take-append_left (m - 3) (take (m - 3) s) (text "...")
            (rw (length-take (m - 3) s) (ground (arith, e)))
          ∙ take_idem (m - 3) s)
]

-- The cut keeps the head of the text: for a limit of at least three, the first `max_length - 3`
-- code units are those of the uncut text.
pub build_forward_text_head :
    (p : NotificationPayload) (m : ℕ)
    → 3 ≤ m
    → take (m - 3) (build_forward_text p m) ≡ take (m - 3) (full_text p)
unfolding build_forward_text
build_forward_text_head p m h = truncate_head (full_text p) m h

-- The text has three lines, one more for an author, and one more for a link: an empty author and a
-- missing or empty link have none.
pub length-forward_lines :
    (p : NotificationPayload)
    → length (forward_lines p)
      ≡ 3 + (if nonempty p.author then 1 else 0) + (if truthy p.url then 1 else 0)
unfolding forward_lines
length-forward_lines p = ground arith
