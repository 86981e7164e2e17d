-- ===== src/Telegram/Login.antt =====
-- telegram/telegram-auth.service.ts: logging an account in over the Telegram worker. Logging is left
-- out.
pub mod Steps
use social_monitor.Prelude.{
  ℕ, Text, text, trim, Bool, true, false, leb, eqb, ◌&&◌, ◌||◌, filter, Option, none, some,
  if◌then◌else◌,
}
use social_monitor.Core.{
  Exception, bad_request, http, error, message_of, Result, ok, err, Action, ◌>>=◌, ◌>>◌, continue,
  return, throw, result, catch, rescue, ApiSuccessResponse, api_data,
}
use social_monitor.World.{World, Services, on_db, on_io, in_db, in_io}
use social_monitor.Encryption.{Cipher, encrypt}
use social_monitor.Telegram.Sidecar.{
  TelegramClientManager, SentCode, send_code, submit_code, submit_password, save_session,
}
use social_monitor.Telegram.Accounts.{upsert}
use social_monitor.Telegram.Listener.{start_for}

-- `/[\d+]/`
abbrev pub is_phone_char : ℕ → Bool
is_phone_char c = leb 48 c && leb c 57 || eqb c 43

unfoldable pub normalize_phone : Text → Text
unfolding trim
normalize_phone phone = filter is_phone_char (trim phone)

abbrev pub to_http_error : Exception → Exception
to_http_error e = http bad_request 400 (message_of e) (text "TELEGRAM_AUTH_FAILED")

pub record LoginStarted : Type 0 where
  pub phone : Text
  pub phone_code_hash : Option Text
  pub is_code_via_app : Option Bool

-- `{ phone, passwordRequired: true }`, or `{ phone, connected: true }`.
pub data LoginStep : Type 0 where
  password_required : (phone : Text) → LoginStep
  connected : (phone : Text) → LoginStep

-- Encrypting `undefined` is a type error.
abbrev pub no_session : Exception
no_session = error (
    text
      "The \"data\" argument must be of type string or an instance of Buffer, TypedArray, or DataView. Received undefined")

abbrev pub encrypted : Cipher → Text → Text → Option Text → Result Text
encrypted c key iv none = err no_session
encrypted c key iv (some session) = ok (encrypt c key iv session)

abbrev as_http_error : {S A : Type 0} → Exception → Action S A
as_http_error e = throw (to_http_error e)

module _ {D N R : Type 0} (sv : Services D N R) (c : Cipher) (key : Text)
    (m : TelegramClientManager) where
  unfoldable pub start_login : Text → Action (World D N R) (ApiSuccessResponse LoginStarted)
  start_login dto_phone = do
    let phone = normalize_phone dto_phone
    sent ← catch (on_io (send_code sv.network m phone)) as_http_error
    return (
        api_data (record {
          phone = phone;
          phone_code_hash = sent.phone_code_hash;
          is_code_via_app = sent.is_code_via_app;
        }))

  -- With the twelve bytes that `randomBytes` gave.
  unfoldable pub persist_session : (iv phone : Text) → Action (World D N R) (Unit {0})
  unfolding start_for
  persist_session iv phone = do
    session ← on_io (save_session sv.network m phone)
    stored ← result (encrypted c key iv session)
    on_db (upsert sv.prisma phone stored true)
    start_for sv c key m phone

  abbrev pub finish_login : (iv phone : Text) → Action (World D N R) (ApiSuccessResponse LoginStep)
  finish_login iv phone = do persist_session iv phone; return (api_data (connected phone))

  abbrev pub after_code :
      (iv phone : Text) → Bool → Action (World D N R) (ApiSuccessResponse LoginStep)
  after_code iv phone true = return (api_data (password_required phone))
  after_code iv phone false = finish_login iv phone

  unfoldable pub submit_login_code :
      (iv dto_phone code : Text) → Action (World D N R) (ApiSuccessResponse LoginStep)
  submit_login_code iv dto_phone code = do
    let phone = normalize_phone dto_phone
    required ← catch (on_io (submit_code sv.network m phone code)) as_http_error
    after_code iv phone required

  unfoldable pub submit_login_password :
      (iv dto_phone password : Text) → Action (World D N R) (ApiSuccessResponse LoginStep)
  submit_login_password iv dto_phone password = do
    let phone = normalize_phone dto_phone
    catch (on_io (submit_password sv.network m phone password)) as_http_error
    finish_login iv phone
