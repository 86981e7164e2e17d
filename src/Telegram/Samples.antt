-- ===== src/Telegram/Samples.antt =====
-- A worker, and a table that keeps accounts, for the tests of the Telegram services.
use social_monitor.Prelude.{
  ◌≡◌, refl, sym, ap, ◌∙◌, ◌||◌, Bool, Bool-cases, ◌++◌, map, filter, inl, inr, Text, text, ◌==◌,
  ==_refl, ==_iff, true, false, List, [], ◌∷◌, Option, none, some, if◌then◌else◌, arith,
}
use social_monitor.Core.{ok, err}
use social_monitor.Schema.{TelegramAccount}
use social_monitor.Database.{Prisma}
use social_monitor.World.{World, Services}
use social_monitor.Net.{str, bool, Outcome}
use social_monitor.Fixtures.{Script, scripted, accepting, offline, refused, io_of, world_of, answer}
use social_monitor.Telegram.Sidecar.{TelegramClientManager}
use social_monitor.Telegram.Accounts.{find_connected}
use social_monitor.Telegram.Accounts.Stored.{AccountLaws, Among, is_connected, patched, row_of}

abbrev pub manager : TelegramClientManager
manager = record { base_url = text "http://w"; secret = text "s" }

abbrev pub Table : Type 0
Table = List TelegramAccount

abbrev pub of_phone : Text → Table → Option TelegramAccount
of_phone phone [] = none
of_phone phone (a ∷ rest) =
    let other = of_phone phone rest in if a.phone == phone then some a else other

abbrev pub has_id : Text → Table → Bool
has_id id [] = false
has_id id (a ∷ rest) = a.id == id || has_id id rest

abbrev pub account_table : Prisma Table
account_table = record (offline Table) {
  account_find_first = λ phone d. (ok (of_phone phone d), d);
  account_find_many = λ connected d. (ok (filter (is_connected connected) d), d);
  account_create = λ v d. (ok tt, d ++ (row_of (text "a1") v ∷ []));
  account_update = λ id c d. (if has_id id d then ok tt else err refused, map (patched id c) d);
}

pub found_in :
    (phone : Text) (d : Table) (a : TelegramAccount)
    → of_phone phone d ≡ some a
    → Among a d × (a.phone ≡ phone)
found_in phone [] a h = cc
found_in phone (x ∷ d) a h = elim (Bool-cases (x.phone == phone)) [
  | inl e ↦
      let same : x ≡ a = ground arith in
      (inl same, ap (λ y. y.phone) (sym same) ∙ (==_iff x.phone phone).0 e)
  | inr e ↦ let (later, same) = found_in phone d a (ground arith) in (inr later, same)
]

pub Among-has_id : (a : TelegramAccount) (d : Table) → Among a d → has_id a.id d ≡ true
Among-has_id a [] h = elim h [ ]
Among-has_id a (x ∷ d) (inl e) = rw (e, ==_refl a.id) refl
Among-has_id a (x ∷ d) (inr h) = ground (arith, Among-has_id a d h)

pub finds :
    (d : Table) → find_connected account_table d ≡ (ok (filter (is_connected (some true)) d), d)
unfolding find_connected
finds d = refl

abbrev pub account_laws : AccountLaws account_table
account_laws = record {
  rows = λ d. d;
  found = of_phone;
  find_first_lem = λ phone d. refl;
  found_row = found_in;
  find_many_lem = λ connected d. refl;
  fresh = λ d. text "a1";
  create_lem = λ v d. (refl, refl);
  update_lem = λ a c d h. (rw (Among-has_id a d h) refl, refl);
}

abbrev pub telegram_services : Services Table Script (Unit {0})
telegram_services = record { prisma = account_table; network = scripted; bull = accepting }

abbrev pub telegram_start : List Outcome → World Table Script (Unit {0})
telegram_start answers = world_of [] (io_of answers)

-- A worker that takes the code, and gives out a session.
abbrev pub login_answers : List Outcome
login_answers =
    answer 200 ((text "passwordRequired", bool false) ∷ [])
    ∷ answer 200 ((text "session", str (text "xyz")) ∷ [])
    ∷ []
