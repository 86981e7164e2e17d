-- ===== src/Web/Login/Steps/Tests.antt =====
-- A login whose phone number is refused.
use social_monitor.Prelude.{◌≡◌, refl, text, false, none, some}
use social_monitor.Core.{Exception, error, message_of}
use social_monitor.Web.Login.{Section, initial, press_start, login_start}
use social_monitor.Web.Login.Steps.{
  Reachable, opened, typed_phone, pressed_start, Reachable-Enabled, Enabled, answered_twice, answer,
  all_failed, failed_answer,
}

abbrev with_phone : Section
with_phone = record initial { phone = text "+1" }

abbrev pressed : Section
pressed = press_start with_phone

pressed-Reachable : Reachable pressed
pressed-Reachable = pressed_start with_phone (typed_phone initial (text "+1") opened)

abbrev refusal : Exception
refusal = error (text "PHONE_NUMBER_INVALID")

Reachable-Enabled_run : Enabled pressed
Reachable-Enabled_run = Reachable-Enabled pressed pressed-Reachable

answered_twice_example :
    (answer (all_failed refusal) (answer (all_failed refusal) pressed)).busy ≡ false
answered_twice_example =
    answered_twice pressed (all_failed refusal) (all_failed refusal) pressed-Reachable

pressed_waiting : pressed.waiting ≡ some login_start
unfolding press_start
pressed_waiting = refl

failed_answer_run :
    answer (all_failed refusal) pressed
    ≡ record pressed { busy = false; waiting = none; message = some (message_of refusal) }
failed_answer_run = failed_answer login_start refusal pressed pressed_waiting
