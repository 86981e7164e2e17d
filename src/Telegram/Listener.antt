-- ===== src/Telegram/Listener.antt =====
-- telegram/telegram-listener.ts: the accounts that are connected again when the program starts.
-- Logging is left out.
pub mod Restoring
use social_monitor.Prelude.{Text, Bool, List, [], ◌∷◌, ◌++◌, if◌then◌else◌}
use social_monitor.Core.{Action, Exception, ◌>>=◌, ◌>>◌, continue, return, result, catch, rescue}
use social_monitor.Schema.{TelegramAccount}
use social_monitor.World.{World, Services, on_db, on_io, in_db, in_io}
use social_monitor.Queue.{contains}
use social_monitor.Encryption.{Cipher, decrypt}
use social_monitor.Telegram.Sidecar.{TelegramClientManager, connect_with_session}
use social_monitor.Telegram.Accounts.{find_connected}

-- `Set.add` of a phone that the set may have.
abbrev pub with_phone : Text → List Text → List Text
with_phone phone phones = if contains phone phones then phones else phones ++ (phone ∷ [])

module _ {D N R : Type 0} (sv : Services D N R) (c : Cipher) (key : Text)
    (m : TelegramClientManager) where
  unfoldable pub start_for : Text → Action (World D N R) (Unit {0})
  start_for phone s = return tt (record s { listening = with_phone phone s.listening })

  -- The body of the `try`.
  unfoldable pub restore_account : TelegramAccount → Action (World D N R) (Unit {0})
  restore_account a = do
    session ← result (decrypt c key a.session)
    on_io (connect_with_session sv.network m a.phone session)
    start_for a.phone

  abbrev pub forgive : Exception → Action (World D N R) (Unit {0})
  forgive e = return tt

  -- The loop over the accounts.
  unfoldable pub restore_each : List TelegramAccount → Action (World D N R) (Unit {0})
  restore_each [] = return tt
  restore_each (a ∷ rest) = catch (restore_account a) forgive >> restore_each rest

  unfoldable pub restore_accounts : Action (World D N R) (Unit {0})
  unfolding find_connected
  restore_accounts = do accounts ← on_db (find_connected sv.prisma); restore_each accounts

  -- In the test environment nothing is restored.
  unfoldable pub on_application_bootstrap : (in_test : Bool) → Action (World D N R) (Unit {0})
  on_application_bootstrap in_test =
      let restored = restore_accounts in if in_test then return tt else restored
