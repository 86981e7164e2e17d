-- ===== src/Telegram/Accounts.antt =====
-- telegram/telegram-account.repository.ts: the stored Telegram accounts.
pub mod Stored
use social_monitor.Prelude.{Text, Bool, true, List, Option, none, some}
use social_monitor.Core.{Action, ◌>>=◌}
use social_monitor.Schema.{TelegramAccount}
use social_monitor.Database.{Prisma, AccountPatch}

module _ {D : Type 0} (p : Prisma D) where
  unfoldable pub find_unique : Text → Action D (Option TelegramAccount)
  find_unique phone = p.account_find_first phone

  abbrev write_account : Text → Text → Bool → Option TelegramAccount → Action D (Unit {0})
  write_account phone session connected (some a) =
      p.account_update a.id (record { session = session; connected = connected })
  write_account phone session connected none =
      p.account_create (record { phone = phone; session = session; connected = connected })

  unfoldable pub upsert : Text → Text → Bool → Action D (Unit {0})
  unfolding find_unique
  upsert phone encrypted_session connected = do
    existing ← find_unique phone
    write_account phone encrypted_session connected existing

  unfoldable pub find_connected : Action D (List TelegramAccount)
  find_connected = p.account_find_many (some true)

  unfoldable pub update : Text → AccountPatch → Action D (Unit {0})
  update id values = p.account_update id values

  unfoldable pub delete : Text → Action D (Unit {0})
  delete id = p.account_delete id
