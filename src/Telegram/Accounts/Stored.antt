-- ===== src/Telegram/Accounts/Stored.antt =====
-- What telegram/telegram-account.repository.ts leaves in the table of the Telegram accounts.
use social_monitor.Prelude.{
  ◌≡◌, refl, sym, ap, subst, ◌⊎◌, inl, inr, Text, ◌==◌, ==_refl, Bool, true, false, not, List, [],
  ◌∷◌, ◌++◌, map, filter, Option, none, some, if◌then◌else◌, Option-cases, Bool-cases,
}
use social_monitor.Core.{ok}
use social_monitor.Schema.{TelegramAccount}
use social_monitor.Database.{Prisma, AccountData, AccountPatch}
use social_monitor.Telegram.Accounts.{find_unique, upsert, find_connected}

abbrev pub Among : {A : Type 0} → A → List A → Type 0
Among x [] = ⊥
Among x (y ∷ ys) = (y ≡ x) ⊎ Among x ys

abbrev pub is_connected : Option Bool → TelegramAccount → Bool
is_connected none a = true
is_connected (some true) a = a.connected
is_connected (some false) a = not a.connected

abbrev pub patched : Text → AccountPatch → TelegramAccount → TelegramAccount
patched id c a = if a.id == id then record a { session = c.session; connected = c.connected } else a

abbrev pub row_of : Text → AccountData → TelegramAccount
row_of id v = record { id = id; phone = v.phone; session = v.session; connected = v.connected }

-- What the table does, for a database that answers: `findFirst` gives a row with the phone where it
-- gives one, `findMany` the rows that match, `create` adds one row under an id of its own, and
-- `update` sets the members of the rows with the id, of which there has to be one.
pub record AccountLaws {D : Type 0} (p : Prisma D) : Type 0 where
  pub rows : D → List TelegramAccount
  pub found : Text → D → Option TelegramAccount
  pub find_first_lem :
      (phone : Text) (d : D) → p.account_find_first phone d ≡ (ok (found phone d), d)
  pub found_row :
      (phone : Text) (d : D) (a : TelegramAccount)
      → found phone d ≡ some a
      → Among a (rows d) × (a.phone ≡ phone)
  pub find_many_lem :
      (connected : Option Bool) (d : D)
      → p.account_find_many connected d ≡ (ok (filter (is_connected connected) (rows d)), d)
  pub fresh : D → Text
  pub create_lem :
      (v : AccountData) (d : D)
      → ((p.account_create v d).0 ≡ ok tt)
        × (rows (p.account_create v d).1 ≡ rows d ++ (row_of (fresh d) v ∷ []))
  pub update_lem :
      (a : TelegramAccount) (c : AccountPatch) (d : D)
      → Among a (rows d)
      → ((p.account_update a.id c d).0 ≡ ok tt)
        × (rows (p.account_update a.id c d).1 ≡ map (patched a.id c) (rows d))

abbrev pub connected_rows : List TelegramAccount → List TelegramAccount
connected_rows = filter (is_connected (some true))

Among-append :
    (x : TelegramAccount) (xs ys : List TelegramAccount) → Among x ys → Among x (xs ++ ys)
Among-append x [] ys h = h
Among-append x (y ∷ xs) ys h = inr (Among-append x xs ys h)

Among-map :
    (f : TelegramAccount → TelegramAccount) (x : TelegramAccount) (xs : List TelegramAccount)
    → Among x xs
    → Among (f x) (map f xs)
Among-map f x [] h = elim h [ ]
Among-map f x (y ∷ xs) (inl e) = inl (ap f e)
Among-map f x (y ∷ xs) (inr h) = inr (Among-map f x xs h)

kept_first :
    (y : TelegramAccount) (xs : List TelegramAccount)
    → y.connected ≡ true
    → Among y (connected_rows (y ∷ xs))
kept_first y xs h = rw h (inl refl)

Among-connected :
    (x : TelegramAccount) (xs : List TelegramAccount)
    → x.connected ≡ true
    → Among x xs
    → Among x (connected_rows xs)
Among-connected x [] c h = elim h [ ]
Among-connected x (y ∷ xs) c (inl e) =
    subst (λ z. Among x (connected_rows (z ∷ xs))) (sym e) (kept_first x xs c)
Among-connected x (y ∷ xs) c (inr h) =
    let later = Among-connected x xs c h in
    elim (Bool-cases y.connected) [ inl e ↦ rw e (inr later) | inr e ↦ rw e later ]

module _ {D : Type 0} (p : Prisma D) (laws : AccountLaws p) where
  pub find_connected_lem : (d : D) → find_connected p d ≡ (ok (connected_rows (laws.rows d)), d)
  unfolding find_connected
  find_connected_lem d = laws.find_many_lem (some true) d

  -- A connected account of the phone with the session.
  abbrev pub Holds : Text → Text → List TelegramAccount → Type 0
  Holds phone session accounts =
      (a : TelegramAccount) × (a.phone ≡ phone) × (a.session ≡ session) × Among a accounts

  -- Storing a session for a phone succeeds, and afterwards the connected accounts hold one of the
  -- phone with the session.
  pub upsert_lem :
      (phone session : Text) (d : D)
      → ((upsert p phone session true d).0 ≡ ok tt)
        × Holds phone session (connected_rows (laws.rows (upsert p phone session true d).1))
  unfolding upsert find_unique
  upsert_lem phone session d = elim (Option-cases (laws.found phone d)) [
    | inl e ↦
        let v : AccountData = record { phone = phone; session = session; connected = true } in
        let new = row_of (laws.fresh d) v in
        let (done, rows) = laws.create_lem v d in
        let among = Among-append new (laws.rows d) (new ∷ []) (inl refl) in
        rw (laws.find_first_lem phone d, e)
          (
            done,
            (new, refl, refl, rw rows (Among-connected new (laws.rows d ++ (new ∷ [])) refl among)),
          )
    | inr (a, e) ↦
        let c : AccountPatch = record { session = session; connected = true } in
        let (listed, same) = laws.found_row phone d a e in
        let (done, rows) = laws.update_lem a c d listed in
        let new = record a { session = session; connected = true } in
        let is_new : patched a.id c a ≡ new = rw (==_refl a.id) refl in
        let among =
          subst (λ x. Among x (map (patched a.id c) (laws.rows d))) is_new
            (Among-map (patched a.id c) a (laws.rows d) listed) in
        rw (laws.find_first_lem phone d, e)
          (
            done,
            (
              new,
              same,
              refl,
              rw rows (Among-connected new (map (patched a.id c) (laws.rows d)) refl among),
            ),
          )
  ]
