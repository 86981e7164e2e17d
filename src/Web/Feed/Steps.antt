-- ===== src/Web/Feed/Steps.antt =====
-- The runs of the feed, with what holds in all of them.
mod Tests
use social_monitor.Prelude.{
  ℕ, zero, suc, ◌≤◌, ◌≡◌, refl, sym, ap, ◌∙◌, Text, text, ◌==◌, Bool, true, false, not, ◌&&◌, ◌||◌,
  List, [], ◌∷◌, take, length, length-take, Option, none, some, arith, Bool-cases, inl, inr,
  if◌then◌else◌,
}
use social_monitor.Core.{Exception, Result, ok, err}
use social_monitor.Messages.Dto.{MessageDto}
use social_monitor.Web.Feed.{
  Feed, initial, max_items, has_id, insert_message, on_list, on_open, on_error, on_fetched,
  fetch_message, fetched, on_unmount,
}

-- No id occurs twice.
abbrev pub distinct : List MessageDto → Bool
distinct [] = true
distinct (m ∷ ms) = not (has_id m.id ms) && distinct ms

-- A page of at most twenty messages, as the API answers.
abbrev pub IsPage : Result (List MessageDto) → Type 0
IsPage (ok items) = (length items ≤ max_items) × (distinct items ≡ true)
IsPage (err e) = Unit {0}

pub data Reachable : Feed → Type 0 where
  mounted : Reachable initial
  list_answered :
      (f : Feed) (r : Result (List MessageDto)) → IsPage r → Reachable f → Reachable (on_list r f)
  opened : (f : Feed) → Reachable f → Reachable (on_open f)
  failed : (f : Feed) → Reachable f → Reachable (on_error f)
  message_answered : (f : Feed) (r : Result MessageDto) → Reachable f → Reachable (on_fetched r f)
  unmounted : (f : Feed) → Reachable f → Reachable (on_unmount f)

abbrev pub Bounded : List MessageDto → Type 0
Bounded items = (length items ≤ max_items) × (distinct items ≡ true)

pub has_id-take :
    (id : Text) (n : ℕ) (items : List MessageDto)
    → has_id id items ≡ false
    → has_id id (take n items) ≡ false
has_id-take id zero items h = refl
has_id-take id (suc n) [] h = refl
has_id-take id (suc n) (m ∷ ms) h = ground (arith, has_id-take id n ms)

distinct-take :
    (n : ℕ) (items : List MessageDto) → distinct items ≡ true → distinct (take n items) ≡ true
distinct-take zero items h = refl
distinct-take (suc n) [] h = refl
distinct-take (suc n) (m ∷ ms) h = ground (arith, distinct-take n ms, has_id-take m.id n ms)

insert-Bounded :
    (m : MessageDto) (items : List MessageDto) → Bounded items → Bounded (insert_message m items)
unfolding insert_message
insert-Bounded m items (short, differ) = elim (Bool-cases (has_id m.id items)) [
  | inl e ↦ rw e (short, differ)
  | inr e ↦ rw e (
    rw (length-take max_items (m ∷ items)) (omega arith),
    distinct-take max_items (m ∷ items) (ground arith),
  )
]

fetched-Bounded :
    (o : Option MessageDto) (f : Feed) → Bounded f.messages → Bounded (fetched o f).messages
unfolding fetched
fetched-Bounded none f h = h
fetched-Bounded (some m) f h = insert-Bounded m f.messages h

list-Bounded :
    (r : Result (List MessageDto)) (f : Feed)
    → IsPage r
    → Bounded f.messages
    → Bounded (on_list r f).messages
unfolding on_list
list-Bounded (ok items) f page h = elim (Bool-cases f.cancelled) [
  | inl e ↦ rw e h
  | inr e ↦ rw e page
]
list-Bounded (err x) f page h = elim (Bool-cases f.cancelled) [ inl e ↦ rw e h | inr e ↦ rw e h ]

-- Whatever the order in which the first page, the messages of the stream and the events of the
-- connection arrive, the feed shows at most twenty messages, and none of them twice.
pub Reachable-Bounded : (f : Feed) → Reachable f → Bounded f.messages
unfolding on_open on_error on_fetched on_unmount
Reachable-Bounded f mounted = (omega arith, refl)
Reachable-Bounded f (list_answered g r page h) = list-Bounded r g page (Reachable-Bounded g h)
Reachable-Bounded f (opened g h) = Reachable-Bounded g h
Reachable-Bounded f (failed g h) = Reachable-Bounded g h
Reachable-Bounded f (message_answered g r h) =
    fetched-Bounded (fetch_message r) g (Reachable-Bounded g h)
Reachable-Bounded f (unmounted g h) = Reachable-Bounded g h
