-- ===== src/Web/Login/Steps.antt =====
-- The runs of the section that logs a Telegram account in: the user types and presses, the API
-- answers.
mod Tests
use social_monitor.Prelude.{
  ◌≡◌, ◌⊎◌, refl, sym, ap, ◌∙◌, Text, nonempty, Bool, true, false, not, ◌&&◌, List, [], ◌∷◌, ◌++◌,
  Option, none, some, Bool-cases, inl, inr, if◌then◌else◌,
}
use social_monitor.Core.{Exception, Result, ok, err, message_of}
use social_monitor.Telegram.Sidecar.{TelegramStatus}
use social_monitor.Telegram.Login.{LoginStep, password_required, connected}
use social_monitor.Web.Login.{
  Section, Waiting, Call, post_reconnect, login_start, login_code, login_password, reconnecting,
  logging_out, loading_status, initial, begin, press, finish, show_error, await_status, load_status,
  press_start, start_answered, press_code, code_answered, press_password, password_answered,
  press_reconnect, reconnect_answered, press_logout, logout_answered, status_answered,
}

-- What the API answers, to a call of either kind.
pub record Answers : Type 0 where
  pub done : Result (Unit {0})
  pub code_result : Result LoginStep
  pub status : Result TelegramStatus

abbrev pub all_failed : Exception → Answers
all_failed e = record { done = err e; code_result = err e; status = err e }

-- The handler that waits goes on.
unfoldable pub continue_handler : Option Waiting → Answers → Section → Section
continue_handler none a s = s
continue_handler (some login_start) a s = start_answered a.done s
continue_handler (some login_code) a s = code_answered a.code_result s
continue_handler (some login_password) a s = password_answered a.done s
continue_handler (some reconnecting) a s = reconnect_answered a.done s
continue_handler (some logging_out) a s = logout_answered a.done s
continue_handler (some loading_status) a s = status_answered a.status s

abbrev pub answer : Answers → Section → Section
unfolding continue_handler
answer a s = continue_handler s.waiting a s

pub data Reachable : Section → Type 0 where
  opened : Reachable initial
  first_status :
      (s : Section) (r : Result TelegramStatus) → Reachable s → Reachable (load_status r s)
  typed_phone : (s : Section) (t : Text) → Reachable s → Reachable (record s { phone = t })
  typed_code : (s : Section) (t : Text) → Reachable s → Reachable (record s { code = t })
  typed_password : (s : Section) (t : Text) → Reachable s → Reachable (record s { password = t })
  pressed_start : (s : Section) → Reachable s → Reachable (press_start s)
  pressed_code : (s : Section) → Reachable s → Reachable (press_code s)
  pressed_password : (s : Section) → Reachable s → Reachable (press_password s)
  pressed_reconnect : (s : Section) → Reachable s → Reachable (press_reconnect s)
  pressed_logout : (s : Section) → Reachable s → Reachable (press_logout s)
  was_answered : (s : Section) (a : Answers) → Reachable s → Reachable (answer a s)

abbrev is_set : Option Waiting → Bool
is_set none = false
is_set (some w) = true

-- The section is busy exactly while a handler waits.
abbrev pub Enabled : Section → Type 0
Enabled s = s.busy ≡ is_set s.waiting

press-Enabled :
    (enabled : Bool) (w : Waiting) (call : Call) (s : Section)
    → Enabled s
    → Enabled (press enabled w call s)
press-Enabled enabled w call s h = elim (Bool-cases (enabled && not s.busy)) [
  | inl e ↦ rw e refl
  | inr e ↦ rw e h
]

load-Enabled : (r : Result TelegramStatus) (s : Section) → Enabled s → Enabled (load_status r s)
unfolding load_status
load-Enabled (ok status) s h = h
load-Enabled (err e) s h = h

-- A handler that has been answered is over, or waits for the status.
abbrev Over : Section → Type 0
Over s =
    ((s.busy ≡ false) × (s.waiting ≡ none)) ⊎ ((s.busy ≡ true) × (s.waiting ≡ some loading_status))

start-Over : (r : Result (Unit {0})) (s : Section) → Over (start_answered r s)
unfolding start_answered
start-Over (ok u) s = inl (refl, refl)
start-Over (err e) s = inl (refl, refl)

code-Over : (r : Result LoginStep) (s : Section) → s.busy ≡ true → Over (code_answered r s)
unfolding code_answered
code-Over (ok (password_required phone)) s h = inl (refl, refl)
code-Over (ok (connected phone)) s h = inr (h, refl)
code-Over (err e) s h = inl (refl, refl)

password-Over : (r : Result (Unit {0})) (s : Section) → s.busy ≡ true → Over (password_answered r s)
unfolding password_answered
password-Over (ok u) s h = inr (h, refl)
password-Over (err e) s h = inl (refl, refl)

reconnect-Over :
    (r : Result (Unit {0})) (s : Section) → s.busy ≡ true → Over (reconnect_answered r s)
unfolding reconnect_answered
reconnect-Over (ok u) s h = inr (h, refl)
reconnect-Over (err e) s h = inl (refl, refl)

logout-Over : (r : Result (Unit {0})) (s : Section) → s.busy ≡ true → Over (logout_answered r s)
unfolding logout_answered
logout-Over (ok u) s h = inr (h, refl)
logout-Over (err e) s h = inl (refl, refl)

handler-Over :
    (w : Waiting) (a : Answers) (s : Section) → s.busy ≡ true → Over (continue_handler (some w) a s)
unfolding continue_handler status_answered
handler-Over login_start a s h = start-Over a.done s
handler-Over login_code a s h = code-Over a.code_result s h
handler-Over login_password a s h = password-Over a.done s h
handler-Over reconnecting a s h = reconnect-Over a.done s h
handler-Over logging_out a s h = logout-Over a.done s h
handler-Over loading_status a s h = inl (refl, refl)

none_handler : (a : Answers) (s : Section) → continue_handler none a s ≡ s
unfolding continue_handler
none_handler a s = refl

-- Answering a section in which no handler waits leaves it.
waiting-Over :
    (w : Option Waiting) (a : Answers) (s : Section)
    → Enabled s
    → s.waiting ≡ w
    → Over (continue_handler w a s)
waiting-Over none a s h k = rw (none_handler a s) (inl (h ∙ ap is_set k, k))
waiting-Over (some w) a s h k = handler-Over w a s (h ∙ ap is_set k)

answer-Over : (a : Answers) (s : Section) → Enabled s → Over (answer a s)
unfolding answer
answer-Over a s h = waiting-Over s.waiting a s h refl

Over-Enabled : (s : Section) → Over s → Enabled s
Over-Enabled s (inl (h, k)) = h ∙ sym (ap is_set k)
Over-Enabled s (inr (h, k)) = h ∙ sym (ap is_set k)

-- In every run the section is busy exactly while a handler waits for an answer, so that no button is
-- enabled during a call and none stays disabled after the last one.
pub Reachable-Enabled : (s : Section) → Reachable s → Enabled s
unfolding press_start press_code press_password press_reconnect press_logout
Reachable-Enabled s opened = refl
Reachable-Enabled s (first_status t r h) = load-Enabled r t (Reachable-Enabled t h)
Reachable-Enabled s (typed_phone t x h) = Reachable-Enabled t h
Reachable-Enabled s (typed_code t x h) = Reachable-Enabled t h
Reachable-Enabled s (typed_password t x h) = Reachable-Enabled t h
Reachable-Enabled s (pressed_start t h) = press-Enabled _ login_start _ t (Reachable-Enabled t h)
Reachable-Enabled s (pressed_code t h) = press-Enabled _ login_code _ t (Reachable-Enabled t h)
Reachable-Enabled s (pressed_password t h) =
    press-Enabled _ login_password _ t (Reachable-Enabled t h)
Reachable-Enabled s (pressed_reconnect t h) =
    press-Enabled true reconnecting post_reconnect t (Reachable-Enabled t h)
Reachable-Enabled s (pressed_logout t h) = press-Enabled _ logging_out _ t (Reachable-Enabled t h)
Reachable-Enabled s (was_answered t a h) =
    Over-Enabled (answer a t) (answer-Over a t (Reachable-Enabled t h))

-- A handler whose answers have failed is over.
failed_handler :
    (w : Waiting) (e : Exception) (s : Section)
    → continue_handler (some w) (all_failed e) s ≡ finish (show_error e s)
unfolding continue_handler start_answered code_answered password_answered reconnect_answered
    logout_answered status_answered load_status
failed_handler login_start e s = refl
failed_handler login_code e s = refl
failed_handler login_password e s = refl
failed_handler reconnecting e s = refl
failed_handler logging_out e s = refl
failed_handler loading_status e s = refl

-- An answer that fails, whatever the handler waits for, shows its message and ends the handler: the
-- buttons are enabled again, the login stays at its step, and the inputs and the status stay.
pub failed_answer :
    (w : Waiting) (e : Exception) (s : Section)
    → s.waiting ≡ some w
    → answer (all_failed e) s
      ≡ record s { busy = false; waiting = none; message = some (message_of e) }
unfolding answer
failed_answer w e s h = ap (λ o. continue_handler o (all_failed e) s) h ∙ failed_handler w e s

Over-answer : (b : Answers) (s : Section) → Over s → (answer b s).busy ≡ false
unfolding answer continue_handler status_answered
Over-answer b s (inl (h, k)) = ap (λ o. (continue_handler o b s).busy) k ∙ h
Over-answer b s (inr (h, k)) = ap (λ o. (continue_handler o b s).busy) k

-- In every run two answers, of success or of failure, end the handler that waits, if one does: the
-- buttons are enabled again.
pub answered_twice :
    (s : Section) (a b : Answers) → Reachable s → (answer b (answer a s)).busy ≡ false
answered_twice s a b h = Over-answer b (answer a s) (answer-Over a s (Reachable-Enabled s h))
