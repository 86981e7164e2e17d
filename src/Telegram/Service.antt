-- ===== src/Telegram/Service.antt =====
-- telegram/telegram.service.ts: the status of the account, its dialogs, reconnecting and logging out.
-- Logging is left out.
pub mod Sessions
use social_monitor.Prelude.{
  Text, text, Bool, true, false, List, [], ◌∷◌, Option, none, some, if◌then◌else◌,
}
use social_monitor.Core.{
  Exception, conflict, http, message_of, Action, ◌>>=◌, ◌>>◌, continue, return, throw, result,
  catch, rescue, require, ApiSuccessResponse, api_data,
}
use social_monitor.Schema.{TelegramAccount}
use social_monitor.Net.{Members}
use social_monitor.World.{World, Services, on_db, on_io, in_db, in_io}
use social_monitor.Encryption.{Cipher, decrypt}
use social_monitor.Telegram.Sidecar.{
  TelegramClientManager, TelegramStatus, get_status, fetch_list, connect_with_session, disconnect,
}
use social_monitor.Telegram.Accounts.{find_connected, update}
use social_monitor.Telegram.Listener.{start_for}

abbrev pub not_connected : Exception
not_connected =
    http conflict 409 (text "No active Telegram session. Login first via /api/telegram/login.")
      (text "TELEGRAM_NOT_CONNECTED")

abbrev pub no_account : Exception
no_account =
    http conflict 409 (text "No connected Telegram account to reconnect")
      (text "TELEGRAM_NO_ACCOUNT")

abbrev pub reconnect_failed : Exception → Exception
reconnect_failed e = http conflict 409 (message_of e) (text "TELEGRAM_RECONNECT_FAILED")

-- `{ disconnected: false, message }`, or `{ disconnected: true, phone }`.
pub data LogoutAnswer : Type 0 where
  nothing_connected : LogoutAnswer
  disconnected : (phone : Text) → LogoutAnswer

-- `accounts[0]`
abbrev pub first_account : List TelegramAccount → Option TelegramAccount
first_account [] = none
first_account (a ∷ rest) = some a

module _ {D N R : Type 0} (sv : Services D N R) (c : Cipher) (key : Text)
    (m : TelegramClientManager) where
  unfoldable pub account_status : Action (World D N R) (ApiSuccessResponse TelegramStatus)
  account_status = do
    status ← on_io (get_status sv.network m)
    return (
        api_data (record {
          connected = status.connected;
          phone = if status.connected then status.phone else none;
        }))

  unfoldable pub require_connected : Action (World D N R) (Unit {0})
  require_connected = do
    status ← on_io (get_status sv.network m)
    require status.connected not_connected

  -- `getDialogs`, `getChannels` and `getGroups` differ in their paths.
  unfoldable pub get_list : Text → Action (World D N R) (ApiSuccessResponse (List Members))
  unfolding require_connected
  get_list path = do
    require_connected
    items ← on_io (fetch_list sv.network m path)
    return (api_data items)

  abbrev pub resume : TelegramAccount → Action (World D N R) (Unit {0})
  resume a = do
    session ← result (decrypt c key a.session)
    on_io (connect_with_session sv.network m a.phone session)
    start_for sv c key m a.phone

  -- The phone that is connected again.
  abbrev pub reconnect_first :
      Option TelegramAccount → Action (World D N R) (ApiSuccessResponse Text)
  reconnect_first none = throw no_account
  reconnect_first (some a) = do
    catch (resume a) (λ e. throw (reconnect_failed e))
    return (api_data a.phone)

  unfoldable pub reconnect : Action (World D N R) (ApiSuccessResponse Text)
  unfolding find_connected
  reconnect = do
    accounts ← on_db (find_connected sv.prisma)
    reconnect_first (first_account accounts)

  abbrev pub forgive : Exception → Action (World D N R) (Unit {0})
  forgive e = return tt

  abbrev pub logout_first :
      Option TelegramAccount → Action (World D N R) (ApiSuccessResponse LogoutAnswer)
  logout_first none = return (api_data nothing_connected)
  logout_first (some a) = do
    catch (on_io (disconnect sv.network m a.phone)) forgive
    on_db (update sv.prisma a.id (record { session = []; connected = false }))
    return (api_data (disconnected a.phone))

  unfoldable pub logout : Action (World D N R) (ApiSuccessResponse LogoutAnswer)
  unfolding find_connected update
  logout = do accounts ← on_db (find_connected sv.prisma); logout_first (first_account accounts)
