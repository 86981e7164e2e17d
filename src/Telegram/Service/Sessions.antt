-- ===== src/Telegram/Service/Sessions.antt =====
-- The account's session in telegram/telegram.service.ts: reconnecting with it, and erasing it.
mod Tests
use social_monitor.Prelude.{
  ◌≡◌, refl, sym, ap, ◌∙◌, Text, text, Bool, true, false, List, [], ◌∷◌, ◌++◌, Option, none, some,
}
use social_monitor.Core.{
  Exception, http, conflict, Result, ok, err, continue, rescue, throw, return, api_data,
  ApiSuccessResponse, message_of,
}
use social_monitor.Schema.{TelegramAccount}
use social_monitor.Net.{Io, Request, Members, str}
use social_monitor.World.{World, Services, on_io}
use social_monitor.Encryption.{Cipher, decrypt}
use social_monitor.Telegram.Sidecar.{
  TelegramClientManager, TelegramStatus, get_status, connect_with_session, disconnect,
  worker_request, default_timeout_ms, request,
}
use social_monitor.Telegram.Sidecar.Requests.{
  after_return, request-Answered, connect_request, connect_requests,
}
use social_monitor.Telegram.Accounts.{find_connected, update}
use social_monitor.Telegram.Listener.{start_for, with_phone}
use social_monitor.Telegram.Service.{
  LogoutAnswer, disconnected, nothing_connected, logout, reconnect, get_list, require_connected,
  not_connected, forgive, reconnect_failed, resume,
}

module _ {D N R : Type 0} (sv : Services D N R) (c : Cipher) (key : Text)
    (m : TelegramClientManager) where
  abbrev pub disconnect_request : Text → Request
  disconnect_request phone =
      worker_request m (text "POST") (text "/disconnect") (some ((text "phone", str phone) ∷ []))
        default_timeout_ms

  disconnect_requests :
      (phone : Text) (io : Io N)
      → (disconnect sv.network m phone io).1.requests
        ≡ io.requests ++ (disconnect_request phone ∷ [])
  unfolding disconnect
  disconnect_requests phone io =
      ap (λ (s : Io N). s.requests) (after_return (λ _. tt) _)
      ∙ (request-Answered sv.network m (text "POST") (text "/disconnect") _ default_timeout_ms io).1

  forgiven : (x : Result (Unit {0}) × World D N R) → rescue (forgive sv c key m) x ≡ (ok tt, x.1)
  forgiven (ok u, s) = refl
  forgiven (err e, s) = refl

  -- Logging out, whatever the network and the worker do: the worker is asked once to disconnect the
  -- first connected account, and even where that fails the account is stored as disconnected with
  -- an empty session, and the answer names its phone.
  pub logout_erases :
      (a : TelegramAccount) (rest : List TelegramAccount) (s : World D N R) (d : D)
      → find_connected sv.prisma s.db ≡ (ok (a ∷ rest), s.db)
      → update sv.prisma a.id (record { session = []; connected = false }) s.db ≡ (ok tt, d)
      → let r = logout sv c key m s in
        (r.0 ≡ ok (api_data (disconnected a.phone)))
        × (r.1.db ≡ d)
        × (r.1.io.requests ≡ s.io.requests ++ (disconnect_request a.phone ∷ []))
  unfolding logout find_connected
  logout_erases a rest s d h k =
      let x = on_io (disconnect sv.network m a.phone) s in
      rw (h, forgiven x, k) (refl, refl, disconnect_requests a.phone s.io)

  status_request : Request
  status_request = worker_request m (text "GET") (text "/status") none default_timeout_ms

  -- Without a connected account the lists are refused with TELEGRAM_NOT_CONNECTED, after the one
  -- request that asked for the status.
  pub get_list_refused :
      (path : Text) (s : World D N R) (io : Io N) (status : TelegramStatus)
      → get_status sv.network m s.io ≡ (ok status, io)
      → status.connected ≡ false
      → get_list sv c key m path s ≡ (err not_connected, record s { io = io })
  unfolding get_list require_connected
  get_list_refused path s io status h k = rw (h, k) refl

  -- The end of `reconnect`, after the worker's answer.
  abbrev pub resumed : Text → Result (Unit {0}) → Result (ApiSuccessResponse Text)
  resumed phone (ok u) = ok (api_data phone)
  resumed phone (err e) = err (reconnect_failed e)

  abbrev pub phones_after : Text → Result (Unit {0}) → List Text → List Text
  phones_after phone (ok u) phones = with_phone phone phones
  phones_after phone (err e) phones = phones

  -- Reconnecting an account whose session decrypts asks the worker to connect its phone with that
  -- session. Where the worker does, the phone is started and answered; a failure of any kind is
  -- passed on as a 409 with its message. The database is left as it was.
  pub reconnect_lem :
      (a : TelegramAccount) (rest : List TelegramAccount) (session : Text) (s : World D N R)
      (r : Result (Unit {0})) (io : Io N)
      → find_connected sv.prisma s.db ≡ (ok (a ∷ rest), s.db)
      → decrypt c key a.session ≡ ok session
      → connect_with_session sv.network m a.phone session s.io ≡ (r, io)
      → (reconnect sv c key m s ≡ (
        resumed a.phone r,
        record s { io = io; listening = phones_after a.phone r s.listening },
      ))
        × (io.requests ≡ s.io.requests ++ (connect_request sv.network m a.phone session ∷ []))
  unfolding reconnect find_connected start_for
  reconnect_lem a rest session s (ok u) io h k e = (
    rw (h, k, e) refl,
    ap (λ x. x.1.requests) (sym e) ∙ connect_requests sv.network m a.phone session s.io,
  )
  reconnect_lem a rest session s (err x) io h k e = (
    rw (h, k, e) refl,
    ap (λ x. x.1.requests) (sym e) ∙ connect_requests sv.network m a.phone session s.io,
  )
