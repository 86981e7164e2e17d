-- ===== src/Telegram/Login/Steps/Tests.antt =====
-- Logging in at concrete input.
use social_monitor.Prelude.{
  ◌≡◌, ◌≢◌, refl, text, trim, Bool, true, false, Text, List, [], ◌∷◌, ◌++◌, some, ◌==◌,
}
use social_monitor.Core.{Result, ok, api_data}
use social_monitor.Net.{Io, Request, bool, await_fetch}
use social_monitor.World.{World}
use social_monitor.Fixtures.{Script, scripted, io_of, answer, world_of}
use social_monitor.Encryption.Shifting.{shifting, shifting_laws}
use social_monitor.Telegram.Sidecar.{request, submit_code, save_session}
use social_monitor.Telegram.Sidecar.Requests.{connect_request}
use social_monitor.Telegram.Listener.{restore_accounts}
use social_monitor.Telegram.Login.{connected, password_required, normalize_phone, submit_login_code}
use social_monitor.Telegram.Login.Steps.{login_incomplete, login_survives_restart}
use social_monitor.Telegram.Accounts.Stored.{Among}
use social_monitor.Queue.{contains}
use social_monitor.Telegram.Samples.{
  manager, Table, account_laws, telegram_services, telegram_start, login_answers,
}

abbrev phone : Text
phone = normalize_phone (text " +1 2")

abbrev start : World Table Script (Unit {0})
start = telegram_start login_answers

-- What the calls leave.
abbrev after_code : Io Script
after_code = (submit_code scripted manager phone (text "5") start.io).1

abbrev after_session : Io Script
after_session = (save_session scripted manager phone after_code).1

code_lem : submit_code scripted manager phone (text "5") start.io ≡ (ok false, after_code)
unfolding submit_code request await_fetch ◌==◌ normalize_phone trim
code_lem = refl

session_lem :
    save_session scripted manager phone after_code ≡ (ok (some (text "xyz")), after_session)
unfolding submit_code save_session request await_fetch ◌==◌ normalize_phone trim
session_lem = refl

abbrev logged_in : World Table Script (Unit {0})
logged_in =
    (submit_login_code telegram_services shifting (text "k") manager (text "iv") (text " +1 2")
      (text "5") start).1

abbrev restarted : World Table Script (Unit {0})
restarted = world_of logged_in.db (io_of [])

login_survives_restart_example :
    ((submit_login_code telegram_services shifting
        (text "k")
        manager
        (text "iv")
        (text " +1 2")
        (text "5")
        start).0
      ≡ ok (api_data (connected phone)))
    × (contains phone logged_in.listening ≡ true)
    × ((sent : List Request) × ((restore_accounts telegram_services shifting
            (text "k")
            manager
            restarted).1.io.requests
          ≡ [] ++ sent)
        × Among (connect_request scripted manager phone (text "xyz")) sent)
login_survives_restart_example =
    login_survives_restart telegram_services shifting (text "k") manager shifting_laws account_laws
      (text "iv") (text " +1 2") (text "5") (text "xyz") start restarted after_code after_session
      code_lem session_lem refl

abbrev guarded : World Table Script (Unit {0})
guarded = telegram_start (answer 200 ((text "passwordRequired", bool true) ∷ []) ∷ [])

abbrev after_guard : Io Script
after_guard = (submit_code scripted manager phone (text "5") guarded.io).1

guard_lem : submit_code scripted manager phone (text "5") guarded.io ≡ (ok true, after_guard)
unfolding submit_code request await_fetch ◌==◌ normalize_phone trim
guard_lem = refl

not_done : ◌≢◌ {A = Result Bool} (ok true) (ok false)
not_done e = cc

login_incomplete_run :
    submit_login_code telegram_services shifting
      (text "k")
      manager
      (text "iv")
      (text " +1 2")
      (text "5")
      guarded
    ≡ (ok (api_data (password_required phone)), record guarded { io = after_guard })
login_incomplete_run =
    login_incomplete telegram_services shifting (text "k") manager (text "iv") (text " +1 2")
      (text "5") guarded after_guard (ok true) guard_lem not_done
