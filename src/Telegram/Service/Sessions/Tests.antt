-- ===== src/Telegram/Service/Sessions/Tests.antt =====
-- Reconnecting and logging out at concrete input.
use social_monitor.Prelude.{◌≡◌, refl, text, true, false, [], ◌∷◌, ◌++◌, none, ◌==◌}
use social_monitor.Core.{Result, ok, err, api_data}
use social_monitor.Schema.{TelegramAccount}
use social_monitor.Net.{Io, await_fetch}
use social_monitor.World.{World}
use social_monitor.Fixtures.{Script, scripted, io_of, world_of, answer}
use social_monitor.Encryption.{encrypt}
use social_monitor.Encryption.RoundTrip.{decrypt-encrypt}
use social_monitor.Encryption.Shifting.{shifting, shifting_laws}
use social_monitor.Telegram.Sidecar.{request, get_status, connect_with_session, TelegramStatus}
use social_monitor.Telegram.Sidecar.Requests.{connect_request}
use social_monitor.Telegram.Accounts.{update}
use social_monitor.Telegram.Service.{disconnected, logout, reconnect, get_list, not_connected}
use social_monitor.Telegram.Service.Sessions.{
  disconnect_request, logout_erases, get_list_refused, reconnect_lem, resumed, phones_after,
}
use social_monitor.Telegram.Samples.{
  manager, Table, account_table, telegram_services, telegram_start, finds,
}

abbrev stored_account : TelegramAccount
stored_account = record {
  id = text "a1";
  phone = text "+1";
  session = encrypt shifting (text "k") (text "iv") (text "xyz");
  connected = true;
}

abbrev before : World Table Script (Unit {0})
before = world_of (stored_account ∷ []) (io_of [])

abbrev erased : TelegramAccount
erased = record stored_account { session = []; connected = false }

erased_lem :
    update account_table
      (text "a1")
      (record { session = []; connected = false })
      (stored_account ∷ [])
    ≡ (ok tt, erased ∷ [])
unfolding update ◌==◌
erased_lem = refl

logout_erases_example :
    let r = logout telegram_services shifting (text "k") manager before in
    (r.0 ≡ ok (api_data (disconnected (text "+1"))))
    × (r.1.db ≡ erased ∷ [])
    × (r.1.io.requests
        ≡ [] ++ (disconnect_request telegram_services shifting (text "k") manager (text "+1") ∷ []))
logout_erases_example =
    logout_erases telegram_services shifting (text "k") manager stored_account [] before
      (erased ∷ []) (finds (stored_account ∷ [])) erased_lem

-- The worker cannot be reached.
abbrev after_connect : Result (Unit {0}) × Io Script
after_connect = connect_with_session scripted manager (text "+1") (text "xyz") before.io

reconnect_lem_run :
    (reconnect telegram_services shifting (text "k") manager before ≡ (
      resumed telegram_services shifting (text "k") manager (text "+1") after_connect.0,
      record before {
        io = after_connect.1;
        listening =
            phones_after telegram_services shifting
              (text "k")
              manager
              (text "+1")
              after_connect.0
              [];
      },
    ))
    × (after_connect.1.requests
        ≡ [] ++ (connect_request scripted manager (text "+1") (text "xyz") ∷ []))
reconnect_lem_run =
    reconnect_lem telegram_services shifting (text "k") manager stored_account [] (text "xyz")
      before after_connect.0 after_connect.1 (finds (stored_account ∷ []))
      (decrypt-encrypt shifting shifting_laws (text "k") (text "iv") (text "xyz")).0 refl

abbrev silent : World Table Script (Unit {0})
silent = telegram_start (answer 200 [] ∷ [])

abbrev no_status : TelegramStatus
no_status = record { phone = none; connected = false }

abbrev after_status : Io Script
after_status = (get_status scripted manager silent.io).1

status_lem : get_status scripted manager silent.io ≡ (ok no_status, after_status)
unfolding get_status request await_fetch
status_lem = refl

get_list_refused_run :
    get_list telegram_services shifting (text "k") manager (text "/groups") silent
    ≡ (err not_connected, record silent { io = after_status })
get_list_refused_run =
    get_list_refused telegram_services shifting (text "k") manager (text "/groups") silent
      after_status no_status status_lem refl
