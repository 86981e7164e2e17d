-- ===== src/Telegram/Listener/Restoring.antt =====
-- Restoring the accounts at the start, in telegram/telegram-listener.ts.
mod Tests
use social_monitor.Prelude.{
  ◌≡◌, refl, sym, ap, subst, ◌∙◌, Text, ◌==◌, Bool, true, false, ◌||◌, List, [], ◌∷◌, ◌++◌, arith,
  Bool-cases, inl, inr, if◌then◌else◌,
}
use mathlib.Core.List.{append_assoc, append-nil}
use social_monitor.Core.{Exception, Result, ok, err, continue, rescue}
use social_monitor.Schema.{TelegramAccount}
use social_monitor.Net.{Request, Io}
use social_monitor.World.{World, Services, Job, SseEvent, in_io}
use social_monitor.Queue.{contains}
use social_monitor.Encryption.{Cipher, decrypt}
use social_monitor.Telegram.Sidecar.{TelegramClientManager, connect_with_session}
use social_monitor.Telegram.Sidecar.Requests.{connect_request, connect_requests}
use social_monitor.Telegram.Accounts.{find_connected}
use social_monitor.Telegram.Listener.{
  with_phone, start_for, restore_account, restore_each, restore_accounts, forgive,
}

module _ {D N R : Type 0} (sv : Services D N R) (c : Cipher) (key : Text)
    (m : TelegramClientManager) where
  abbrev pub connect_if : Text → Result Text → List Request
  connect_if phone (ok session) = connect_request sv.network m phone session ∷ []
  connect_if phone (err e) = []

  -- One request for each account whose session decrypts, in the order of the accounts.
  abbrev pub connects : List TelegramAccount → List Request
  connects [] = []
  connects (a ∷ rest) = connect_if a.phone (decrypt c key a.session) ++ connects rest

  -- Restoring has sent just these requests; what is stored, the jobs and the events are as they
  -- were, and no phone has stopped.
  pub record Restored (sent : List Request) (s t : World D N R) : Type 0 where
    pub requests : t.io.requests ≡ s.io.requests ++ sent
    pub db : t.db ≡ s.db
    pub jobs : t.jobs ≡ s.jobs
    pub events : t.events ≡ s.events
    pub kept :
        (phone : Text) → contains phone s.listening ≡ true → contains phone t.listening ≡ true

  contains-append_left :
      (phone : Text) (xs ys : List Text)
      → contains phone xs ≡ true
      → contains phone (xs ++ ys) ≡ true
  contains-append_left phone [] ys h = ground arith
  contains-append_left phone (x ∷ xs) ys h = ground (arith, contains-append_left phone xs ys)

  kept_with :
      (phone other : Text) (phones : List Text)
      → contains other phones ≡ true
      → contains other (with_phone phone phones) ≡ true
  kept_with phone other phones h = elim (Bool-cases (contains phone phones)) [
    | inl e ↦ rw e h
    | inr e ↦ rw e (contains-append_left other phones (phone ∷ []) h)
  ]

  -- The end of the `try`, and the `catch`, after the worker's answer.
  abbrev ended : Text → Result (Unit {0}) × Io N → World D N R → Result (Unit {0}) × World D N R
  ended phone x s =
      rescue (forgive sv c key m) (continue (λ _. start_for sv c key m phone) (in_io s x))

  ended-Restored :
      (phone : Text) (r : Result (Unit {0})) (io : Io N) (s : World D N R) (sent : List Request)
      → io.requests ≡ s.io.requests ++ sent
      → ((ended phone (r, io) s).0 ≡ ok tt) × Restored sent s (ended phone (r, io) s).1
  unfolding start_for
  ended-Restored phone (ok u) io s sent e = (
    refl,
    record {
      requests = e;
      db = refl;
      jobs = refl;
      events = refl;
      kept = λ other h. kept_with phone other s.listening h;
    },
  )
  ended-Restored phone (err x) io s sent e =
      (refl, record { requests = e; db = refl; jobs = refl; events = refl; kept = λ other h. h })

  untouched : (s : World D N R) → Restored [] s s
  untouched s = record {
    requests = sym (append-nil s.io.requests);
    db = refl;
    jobs = refl;
    events = refl;
    kept = λ other h. h;
  }

  -- One account, after its session has been decrypted or not.
  abbrev tried : TelegramAccount → Result Text → World D N R → Result (Unit {0}) × World D N R
  tried a (ok session) s = ended a.phone (connect_with_session sv.network m a.phone session s.io) s
  tried a (err e) s = (ok tt, s)

  tried-Restored :
      (a : TelegramAccount) (session : Result Text) (s : World D N R)
      → ((tried a session s).0 ≡ ok tt)
        × Restored (connect_if a.phone session) s (tried a session s).1
  tried-Restored a (ok session) s =
      let answer = connect_with_session sv.network m a.phone session s.io in
      ended-Restored a.phone answer.0 answer.1 s _
        (connect_requests sv.network m a.phone session s.io)
  tried-Restored a (err e) s = (refl, untouched s)

  account_tried :
      (a : TelegramAccount) (s : World D N R) (session : Result Text)
      → decrypt c key a.session ≡ session
      → rescue (forgive sv c key m) (restore_account sv c key m a s) ≡ tried a session s
  unfolding restore_account
  account_tried a s (ok session) e = rw e refl
  account_tried a s (err x) e = rw e refl

  compose :
      (sent more : List Request) (s t u : World D N R)
      → Restored sent s t
      → Restored more t u
      → Restored (sent ++ more) s u
  compose sent more s t u r r' = record {
    requests =
        r'.requests ∙ (ap (λ l. l ++ more) r.requests ∙ append_assoc s.io.requests sent more);
    db = r'.db ∙ r.db;
    jobs = r'.jobs ∙ r.jobs;
    events = r'.events ∙ r.events;
    kept = λ phone h. r'.kept phone (r.kept phone h);
  }

  continued :
      (x : Result (Unit {0}) × World D N R) (rest : List TelegramAccount)
      → x.0 ≡ ok tt
      → continue (λ _. restore_each sv c key m rest) x ≡ restore_each sv c key m rest x.1
  continued (r, t) rest e = rw e refl

  pub restore_each-Restored :
      (accounts : List TelegramAccount) (s : World D N R)
      → ((restore_each sv c key m accounts s).0 ≡ ok tt)
        × Restored (connects accounts) s (restore_each sv c key m accounts s).1
  unfolding restore_each
  restore_each-Restored [] s = (refl, untouched s)
  restore_each-Restored (a ∷ rest) s =
      let session = decrypt c key a.session in
      let first = account_tried a s session refl in
      let (done, first-Restored) = tried-Restored a session s in
      let t = (tried a session s).1 in
      let (done', rest-Restored) = restore_each-Restored rest t in
      let e =
        ap (continue (λ _. restore_each sv c key m rest)) first
        ∙ continued (tried a session s) rest done in
      (
        ap (λ x. x.0) e ∙ done',
        subst (λ x. Restored (connects (a ∷ rest)) s x.1) (sym e)
            (compose (connect_if a.phone session) (connects rest) s t _ first-Restored
              rest-Restored),
      )

  -- Restoring never throws once the accounts are read, whatever the cipher, the network and the
  -- worker do: it asks the worker once, in order, for each connected account whose session decrypts,
  -- skips the others, leaves the database, the jobs and the events as they were, and stops no phone.
  pub restore_accounts_total :
      (accounts : List TelegramAccount) (s : World D N R)
      → find_connected sv.prisma s.db ≡ (ok accounts, s.db)
      → ((restore_accounts sv c key m s).0 ≡ ok tt)
        × Restored (connects accounts) s (restore_accounts sv c key m s).1
  unfolding restore_accounts find_connected
  restore_accounts_total accounts s e = rw e (restore_each-Restored accounts s)
