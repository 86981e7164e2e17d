-- ===== src/Web/Login.antt =====
-- The section of apps/web/app/settings/page.tsx that logs a Telegram account in and out. Each handler
-- is cut at its awaits: what it does when the button is pressed, and at each answer. `waiting` is
-- the call that a handler waits for. The texts shown are those of the code.
mod Steps
use social_monitor.Prelude.{
  Text, text, nonempty, Bool, true, false, not, ◌&&◌, ◌||◌, List, [], ◌∷◌, ◌++◌, Option, none, some,
  if◌then◌else◌,
}
use social_monitor.Core.{Exception, Result, ok, err, message_of}
use social_monitor.Telegram.Sidecar.{TelegramStatus}
use social_monitor.Telegram.Login.{LoginStep, password_required, connected}

pub data Step : Type 0 where
  start code password : Step

pub data Waiting : Type 0 where
  login_start login_code login_password reconnecting logging_out loading_status : Waiting

-- The calls of the API.
pub data Call : Type 0 where
  read_status : Call
  post_start : (phone : Text) → Call
  post_code : (phone code : Text) → Call
  post_password : (phone password : Text) → Call
  post_reconnect post_logout : Call

pub record Section : Type 0 where
  pub status : Option TelegramStatus
  pub phone : Text
  pub code : Text
  pub password : Text
  pub step : Step
  pub busy : Bool
  pub message : Option Text
  pub waiting : Option Waiting
  pub calls : List Call

-- With the first load of the status, which no handler waits for.
abbrev pub initial : Section
initial = record {
  status = none;
  phone = [];
  code = [];
  password = [];
  step = start;
  busy = false;
  message = none;
  waiting = none;
  calls = read_status ∷ [];
}

abbrev pub is_step : Step → Step → Bool
is_step start start = true
is_step code code = true
is_step password password = true
is_step _ _ = false

-- `setBusy(true); setMessage(null)`, and the call that is awaited.
abbrev pub begin : Waiting → Call → Section → Section
begin w call s = record s {
  busy = true;
  message = none;
  waiting = some w;
  calls = s.calls ++ (call ∷ []);
}

-- `setBusy(false)`, at the end of a handler.
abbrev pub finish : Section → Section
finish s = record s { busy = false; waiting = none }

-- `setMessage(err instanceof Error ? err.message : String(err))`
abbrev pub show_error : Exception → Section → Section
show_error e s = record s { message = some (message_of e) }

-- `await loadStatus()` in a handler.
abbrev pub await_status : Section → Section
await_status s = record s { waiting = some loading_status; calls = s.calls ++ (read_status ∷ []) }

unfoldable pub load_status : Result TelegramStatus → Section → Section
load_status (ok status) s = record s { status = some status }
load_status (err e) s = show_error e s

-- A button: only its step shows it, and it is disabled while the section is busy or the input empty.
abbrev pub press : Bool → Waiting → Call → Section → Section
press enabled w call s = if enabled && not s.busy then begin w call s else s

unfoldable pub press_start : Section → Section
press_start s = press (is_step s.step start && nonempty s.phone) login_start (post_start s.phone) s

unfoldable pub start_answered : Result (Unit {0}) → Section → Section
start_answered (ok u) s = finish (record s { step = code; message = some (text "验证码已发送") })
start_answered (err e) s = finish (show_error e s)

unfoldable pub press_code : Section → Section
press_code s =
    press (is_step s.step code && nonempty s.code) login_code (post_code s.phone s.code) s

unfoldable pub code_answered : Result LoginStep → Section → Section
code_answered (ok (password_required phone)) s =
    finish (record s { step = password; message = some (text "需要两步验证密码") })
code_answered (ok (connected phone)) s = await_status (record s { step = start; code = [] })
code_answered (err e) s = finish (show_error e s)

unfoldable pub press_password : Section → Section
press_password s =
    press (is_step s.step password && nonempty s.password) login_password
      (post_password s.phone s.password) s

unfoldable pub password_answered : Result (Unit {0}) → Section → Section
password_answered (ok u) s = await_status (record s { step = start; password = []; code = [] })
password_answered (err e) s = finish (show_error e s)

unfoldable pub press_reconnect : Section → Section
press_reconnect s = press true reconnecting post_reconnect s

unfoldable pub reconnect_answered : Result (Unit {0}) → Section → Section
reconnect_answered (ok u) s = await_status s
reconnect_answered (err e) s = finish (show_error e s)

-- The button is there for a status that says connected.
abbrev pub shows_connected : Option TelegramStatus → Bool
shows_connected none = false
shows_connected (some status) = status.connected

unfoldable pub press_logout : Section → Section
press_logout s = press (shows_connected s.status) logging_out post_logout s

unfoldable pub logout_answered : Result (Unit {0}) → Section → Section
logout_answered (ok u) s =
    await_status (record s { phone = []; code = []; password = []; step = start })
logout_answered (err e) s = finish (show_error e s)

-- The end of a handler that has loaded the status.
unfoldable pub status_answered : Result TelegramStatus → Section → Section
unfolding load_status
status_answered r s = finish (load_status r s)
