-- ===== src/Web/Feed/Delivery.antt =====
-- Messages of the stream that come after the first page of the feed.
mod Tests
use social_monitor.Prelude.{
  ℕ, zero, suc, ◌≤◌, ◌≡◌, refl, sym, ap, subst, ◌∙◌, Text, ◌==◌, Bool, true, false, not, ◌&&◌, ◌||◌,
  List, [], ◌∷◌, ◌++◌, reverse, take, take_all, length, Option, some, arith, if◌then◌else◌,
}
use mathlib.Core.List.{reverse_aux, reverse_aux-eq}
use social_monitor.Core.{ok}
use social_monitor.Messages.Dto.{MessageDto}
use social_monitor.Web.Feed.{
  Feed, initial, max_items, has_id, insert_message, on_list, on_fetched, fetch_message, fetched,
}
use social_monitor.Web.Feed.Steps.{distinct, has_id-take, IsPage}

-- The messages are fetched one after the other.
unfoldable pub deliver : List MessageDto → Feed → Feed
deliver [] f = f
deliver (m ∷ ms) f = deliver ms (on_fetched (ok m) f)

take_again : {A : Type 0} (n : ℕ) (x : A) (xs : List A) → take n (x ∷ take n xs) ≡ take n (x ∷ xs)
take_again zero x xs = refl
take_again (suc zero) x xs = refl
take_again (suc (suc n)) x [] = refl
take_again (suc (suc n)) x (y ∷ ys) = ap (λ l. x ∷ l) (take_again (suc n) y ys)

distinct_below :
    (ms items : List MessageDto) → distinct (reverse_aux ms items) ≡ true → distinct items ≡ true
distinct_below [] items h = h
distinct_below (m ∷ ms) items h = let ih = distinct_below ms (m ∷ items) h in ground arith

insert_new :
    (m : MessageDto) (items : List MessageDto)
    → distinct (m ∷ items) ≡ true
    → insert_message m (take max_items items) ≡ take max_items (m ∷ items)
unfolding insert_message
insert_new m items h =
    let e : has_id m.id items ≡ false = ground arith in
    rw (has_id-take m.id max_items items e) (take_again max_items m items)

deliver_lem :
    (ms items : List MessageDto) (f : Feed)
    → f.messages ≡ take max_items items
    → distinct (reverse_aux ms items) ≡ true
    → (deliver ms f).messages ≡ take max_items (reverse_aux ms items)
unfolding deliver on_fetched fetch_message fetched
deliver_lem [] items f e h = e
deliver_lem (m ∷ ms) items f e h =
    deliver_lem ms (m ∷ items) (on_fetched (ok m) f)
      (ap (insert_message m) e ∙ insert_new m items (distinct_below ms (m ∷ items) h)) h

-- After the first page, new messages of the stream show newest first above the page, of which what
-- is beyond twenty drops off at the end.
pub deliver-newest :
    (items ms : List MessageDto)
    → length items ≤ max_items
    → distinct (reverse ms ++ items) ≡ true
    → (deliver ms (on_list (ok items) initial)).messages ≡ take max_items (reverse ms ++ items)
unfolding on_list
deliver-newest items ms short h =
    let e = reverse_aux-eq ms items in
    deliver_lem ms items (on_list (ok items) initial) (sym (take_all max_items items short))
      (ap distinct e ∙ h)
    ∙ ap (take max_items) e
