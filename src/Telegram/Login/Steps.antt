-- ===== src/Telegram/Login/Steps.antt =====
-- What a login of telegram/telegram-auth.service.ts stores, and that the stored session is the one
-- that telegram/telegram-listener.ts connects with at the next start.
mod Tests
use social_monitor.Prelude.{
  ◌≡◌, ◌≢◌, refl, sym, ap, subst, ◌∙◌, ◌⊎◌, inl, inr, Text, Bool, true, false, List, [], ◌∷◌, ◌++◌,
  Option, some, arith, ==_refl, if◌then◌else◌, Bool-cases,
}
use social_monitor.Core.{Result, ok, err, api_data, ApiSuccessResponse}
use social_monitor.Schema.{TelegramAccount}
use social_monitor.Database.{Prisma}
use social_monitor.Net.{Io, Request}
use social_monitor.World.{World, Services}
use social_monitor.Encryption.{Cipher, encrypt, decrypt}
use social_monitor.Encryption.RoundTrip.{CipherLaws, decrypt-encrypt}
use social_monitor.Telegram.Sidecar.{TelegramClientManager, submit_code, save_session}
use social_monitor.Telegram.Sidecar.Requests.{connect_request}
use social_monitor.Telegram.Accounts.{upsert}
use social_monitor.Telegram.Accounts.Stored.{
  AccountLaws, Among, connected_rows, find_connected_lem, upsert_lem,
}
use social_monitor.Queue.{contains}
use social_monitor.Telegram.Listener.{start_for, with_phone, restore_accounts}
use social_monitor.Telegram.Listener.Restoring.{connects, connect_if, restore_accounts_total}
use social_monitor.Telegram.Login.{
  LoginStep, connected, password_required, normalize_phone, to_http_error, persist_session,
  submit_login_code, after_code, finish_login, encrypted,
}

added : (phone : Text) (phones : List Text) → contains phone (phones ++ (phone ∷ [])) ≡ true
added phone [] = ground (arith, ==_refl phone)
added phone (x ∷ xs) = ground (arith, added phone xs)

with_phone_lem :
    (phone : Text) (phones : List Text) → contains phone (with_phone phone phones) ≡ true
with_phone_lem phone phones = elim (Bool-cases (contains phone phones)) [
  | inl e ↦ rw e e
  | inr e ↦ rw e (added phone phones)
]

module _ {D N R : Type 0} (sv : Services D N R) (c : Cipher) (key : Text)
    (m : TelegramClientManager) where
  -- The answer of a code that does not log in yet.
  abbrev pub incomplete : Text → Result Bool → Result (ApiSuccessResponse LoginStep)
  incomplete phone (ok required) = ok (api_data (password_required phone))
  incomplete phone (err e) = err (to_http_error e)

  -- A code that the worker refuses, or after which it asks for a password, stores nothing, starts no
  -- phone and sends no event; a refusal is passed on as TELEGRAM_AUTH_FAILED with its message.
  pub login_incomplete :
      (iv phone code : Text) (s : World D N R) (io : Io N) (r : Result Bool)
      → submit_code sv.network m (normalize_phone phone) code s.io ≡ (r, io)
      → r ≢ ok false
      → submit_login_code sv c key m iv phone code s
        ≡ (incomplete (normalize_phone phone) r, record s { io = io })
  unfolding submit_login_code
  login_incomplete iv phone code s io (ok true) h k = rw h refl
  login_incomplete iv phone code s io (ok false) h k = absurd (k refl)
  login_incomplete iv phone code s io (err e) h k = rw h refl

  persist_lem :
      (laws : AccountLaws sv.prisma) (iv phone session : Text) (s : World D N R) (io : Io N)
      → save_session sv.network m phone s.io ≡ (ok (some session), io)
      → persist_session sv c key m iv phone s ≡ (
        ok tt,
        record s {
          io = io;
          db = (upsert sv.prisma phone (encrypt c key iv session) true s.db).1;
          listening = with_phone phone s.listening;
        },
      )
  unfolding persist_session start_for
  persist_lem laws iv phone session s io h =
      rw (h, (upsert_lem sv.prisma laws phone (encrypt c key iv session) s.db).0) refl

  login_lem :
      (laws : AccountLaws sv.prisma) (iv phone code session : Text) (s : World D N R)
      (io io' : Io N)
      → submit_code sv.network m (normalize_phone phone) code s.io ≡ (ok false, io)
      → save_session sv.network m (normalize_phone phone) io ≡ (ok (some session), io')
      → submit_login_code sv c key m iv phone code s ≡ (
        ok (api_data (connected (normalize_phone phone))),
        record s {
          io = io';
          db = (upsert sv.prisma (normalize_phone phone) (encrypt c key iv session) true s.db).1;
          listening = with_phone (normalize_phone phone) s.listening;
        },
      )
  unfolding submit_login_code
  login_lem laws iv phone code session s io io' h k =
      rw (h, persist_lem laws iv (normalize_phone phone) session (record s { io = io }) io' k) refl

  Among-append : {A : Type 0} (x : A) (xs ys : List A) → Among x ys → Among x (xs ++ ys)
  Among-append x [] ys h = h
  Among-append x (y ∷ xs) ys h = inr (Among-append x xs ys h)

  first-Among :
      (a : TelegramAccount) (session : Text) (rest : List TelegramAccount)
      → decrypt c key a.session ≡ ok session
      → Among (connect_request sv.network m a.phone session) (connects sv c key m (a ∷ rest))
  first-Among a session rest e = rw e (inl refl)

  connects-Among :
      (a : TelegramAccount) (session : Text) (accounts : List TelegramAccount)
      → decrypt c key a.session ≡ ok session
      → Among a accounts
      → Among (connect_request sv.network m a.phone session) (connects sv c key m accounts)
  connects-Among a session [] e h = elim h [ ]
  connects-Among a session (b ∷ rest) e (inl same) =
      subst
        (λ x. Among (connect_request sv.network m a.phone session) (connects sv c key m (x ∷ rest)))
        (sym same) (first-Among a session rest e)
  connects-Among a session (b ∷ rest) e (inr later) =
      Among-append _ (connect_if sv c key m b.phone (decrypt c key b.session)) _
        (connects-Among a session rest e later)

  -- A login without a password step: the answer is `connected`, and the phone is among those that
  -- the listener has started. At any later start of the program, from a state with the same database,
  -- the worker is asked to connect that phone with the very session that it had given out.
  pub login_survives_restart :
      (cipher_laws : CipherLaws c) (laws : AccountLaws sv.prisma) (iv phone code session : Text)
      (s later : World D N R) (io io' : Io N)
      → submit_code sv.network m (normalize_phone phone) code s.io ≡ (ok false, io)
      → save_session sv.network m (normalize_phone phone) io ≡ (ok (some session), io')
      → later.db ≡ (submit_login_code sv c key m iv phone code s).1.db
      → ((submit_login_code sv c key m iv phone code s).0
          ≡ ok (api_data (connected (normalize_phone phone))))
        × (contains
              (normalize_phone phone)
              (submit_login_code sv c key m iv phone code s).1.listening
            ≡ true)
        × ((sent : List Request) × ((restore_accounts sv c key m later).1.io.requests
              ≡ later.io.requests ++ sent)
            × Among (connect_request sv.network m (normalize_phone phone) session) sent)
  login_survives_restart cipher_laws laws iv phone code session s later io io' h k e =
      let phone' = normalize_phone phone in
      let stored = encrypt c key iv session in
      let (_, (a, same_phone, same_session, listed)) =
        upsert_lem sv.prisma laws phone' stored s.db in
      let done = login_lem laws iv phone code session s io io' h k in
      let same_db = e ∙ ap (λ r. r.1.db) done in
      let decrypts =
        ap (decrypt c key) same_session ∙ (decrypt-encrypt c cipher_laws key iv session).0 in
      let accounts = connected_rows (laws.rows later.db) in
      let (_, restored) =
        restore_accounts_total sv c key m accounts later
          (find_connected_lem sv.prisma laws later.db) in
      let among : Among a accounts =
        subst (λ d. Among a (connected_rows (laws.rows d))) (sym same_db) listed in
      (
        ap (λ r. r.0) done,
        ap (λ r. contains phone' r.1.listening) done ∙ with_phone_lem phone' s.listening,
        (
          connects sv c key m accounts,
          restored.requests,
          subst (λ x. Among (connect_request sv.network m x session) (connects sv c key m accounts))
              same_phone (connects-Among a session accounts decrypts among),
        ),
      )
