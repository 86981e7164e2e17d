-- ===== src/Telegram/Listener/Restoring/Tests.antt =====
-- Restoring an account at concrete input.
use social_monitor.Prelude.{◌≡◌, text, true, [], ◌∷◌}
use social_monitor.Core.{ok}
use social_monitor.Schema.{TelegramAccount}
use social_monitor.World.{World}
use social_monitor.Fixtures.{Script, io_of, world_of}
use social_monitor.Encryption.{encrypt}
use social_monitor.Encryption.Shifting.{shifting}
use social_monitor.Telegram.Listener.{restore_accounts}
use social_monitor.Telegram.Listener.Restoring.{Restored, connects, restore_accounts_total}
use social_monitor.Telegram.Samples.{manager, Table, telegram_services, finds}

abbrev stored_account : TelegramAccount
stored_account = record {
  id = text "a1";
  phone = text "+1";
  session = encrypt shifting (text "k") (text "iv") (text "xyz");
  connected = true;
}

abbrev before : World Table Script (Unit {0})
before = world_of (stored_account ∷ []) (io_of [])

restore_accounts_total_example :
    ((restore_accounts telegram_services shifting (text "k") manager before).0 ≡ ok tt)
    × Restored telegram_services shifting
        (text "k")
        manager
        (connects telegram_services shifting (text "k") manager (stored_account ∷ []))
        before
        (restore_accounts telegram_services shifting (text "k") manager before).1
restore_accounts_total_example =
    restore_accounts_total telegram_services shifting (text "k") manager (stored_account ∷ [])
      before (finds (stored_account ∷ []))
