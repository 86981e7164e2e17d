-- ===== src/Auth/Session.antt =====
-- What the tokens of auth/auth.service.ts are good for, and what the guard lets through.
mod Tests
use social_monitor.Prelude.{
  ℕ, ◌+◌, ◌/◌, ◌<◌, ◌≤◌, ◌≡◌, ◌≢◌, ◌⊎◌, ==_iff, refl, ap, trim, trim_start, is_space, reverse, ◌∙◌,
  Text, text, ◌++◌, ◌==◌, ==_refl, nonempty, truthy, Bool, true, false, not, ◌&&◌, ◌||◌, leb, List,
  [], ◌∷◌, Option, none, some, arith, if◌then◌else◌, Bool-cases, inl, inr,
}
use mathlib.Core.List.{reverse_aux, reverse-reverse}
use social_monitor.Core.{Result, ok, err}
use social_monitor.Splitting.{split, dot, is_free_of, split_whole, split_first}
use social_monitor.Auth.{
  Tokens, AuthService, AuthTokenPayload, Claims, GuardRequest, LoginResult, safe_equal, sign, login,
  verify, verify_parts, checked, read_typed, can_activate, payload_for, logged_out,
  wrong_credentials, extract_token, after_prefix,
}

abbrev pub claims_of : AuthTokenPayload → Claims
claims_of p = record { sub = some p.sub; iat = some p.iat; exp = some p.exp }

abbrev pub has_no_space : Text → Bool
has_no_space [] = true
has_no_space (c ∷ s) = not (is_space c) && has_no_space s

-- What the tokens rest on: what is written is read back, and base64url has no "." and no space.
pub record TokenLaws (tk : Tokens) : Type 0 where
  pub read_write : (p : AuthTokenPayload) → tk.read (tk.write p) ≡ some (claims_of p)
  pub write_free : (p : AuthTokenPayload) → is_free_of dot (tk.write p) ≡ true
  pub hmac_free : (secret s : Text) → is_free_of dot (tk.hmac secret s) ≡ true
  pub write_unspaced : (p : AuthTokenPayload) → has_no_space (tk.write p) ≡ true
  pub hmac_unspaced : (secret s : Text) → has_no_space (tk.hmac secret s) ≡ true

unspaced_append :
    (a b : Text) → has_no_space a ≡ true → has_no_space b ≡ true → has_no_space (a ++ b) ≡ true
unspaced_append [] b h k = k
unspaced_append (c ∷ a) b h k = ground (arith, unspaced_append a b)

unspaced_reverse_aux :
    (a b : Text)
    → has_no_space a ≡ true
    → has_no_space b ≡ true
    → has_no_space (reverse_aux a b) ≡ true
unspaced_reverse_aux [] b h k = k
unspaced_reverse_aux (c ∷ a) b h k =
    let first : not (is_space c) ≡ true = ground arith in
    let rest : has_no_space a ≡ true = ground arith in
    unspaced_reverse_aux a (c ∷ b) rest (ground arith)

trim_start_lem : (s : Text) → has_no_space s ≡ true → trim_start s ≡ s
unfolding trim_start
trim_start_lem [] h = refl
trim_start_lem (c ∷ s) h = let e : is_space c ≡ false = ground arith in rw e refl

trim_lem : (s : Text) → has_no_space s ≡ true → trim s ≡ s
unfolding trim
trim_lem s h =
    ap (λ t. reverse (trim_start (reverse t))) (trim_start_lem s h)
    ∙ ap reverse (trim_start_lem (reverse s) (unspaced_reverse_aux s [] h refl))
    ∙ reverse-reverse s

nonempty_append : (a b : Text) → nonempty (a ++ (dot ∷ b)) ≡ true
nonempty_append [] b = refl
nonempty_append (x ∷ a) b = refl

module _ (tk : Tokens) (laws : TokenLaws tk) (service : AuthService) where
  sign_parts :
      (subject : Text) (now : ℕ)
      → let part = tk.write (payload_for tk service subject now) in
        split dot (sign tk service subject now) ≡ part ∷ tk.hmac service.secret part ∷ []
  unfolding sign
  sign_parts subject now =
      let part = tk.write (payload_for tk service subject now) in
      split_first dot part (tk.hmac service.secret part) (laws.write_free _)
      ∙ ap (λ r. part ∷ r) (split_whole dot _ (laws.hmac_free service.secret part))

  same_hmac : (s : Text) → safe_equal tk service s s ≡ true
  unfolding safe_equal
  same_hmac s = ==_refl (tk.bytes s)

  -- A token verifies, with the payload that was signed, in every second before it expires, and in
  -- none from then on.
  pub verify-sign :
      (subject : Text) (now later : ℕ)
      → let payload = payload_for tk service subject now in
        verify tk service (sign tk service subject now) later
        ≡ (if leb payload.exp (later / 1000) then none else some payload)
  unfolding verify
  verify-sign subject now later =
      let part = tk.write (payload_for tk service subject now) in
      rw
        (
          sign_parts subject now,
          laws.read_write (payload_for tk service subject now),
          same_hmac (tk.hmac service.secret part),
        )
        refl

  -- A genuine token: two parts, of which the second is the code of the first under the service's
  -- secret, and the first reads as the payload, which has not expired.
  abbrev pub Genuine : Text → AuthTokenPayload → ℕ → Type 0
  Genuine token payload now =
      (part : Text) × (code : Text) × (split dot token ≡ part ∷ code ∷ [])
      × (tk.bytes code == tk.bytes (tk.hmac service.secret part) ≡ true)
      × (read_typed tk service (tk.read part) ≡ some payload)
      × (now / 1000 < payload.exp)

  checked_lem :
      (part code : Text) (now : ℕ) (read : Option AuthTokenPayload) (payload : AuthTokenPayload)
      → checked tk service part code now read ≡ some payload
      → (tk.bytes code == tk.bytes (tk.hmac service.secret part) ≡ true)
        × (read ≡ some payload)
        × (now / 1000 < payload.exp)
  unfolding safe_equal
  checked_lem part code now none payload h = ground arith
  checked_lem part code now (some p) payload h = (ground arith, ground arith, ground arith)

  parts-Genuine :
      (token : Text) (now : ℕ) (parts : List Text) (payload : AuthTokenPayload)
      → split dot token ≡ parts
      → verify_parts tk service parts now ≡ some payload
      → Genuine token payload now
  parts-Genuine token now [] payload e h = ground arith
  parts-Genuine token now (part ∷ []) payload e h = ground arith
  parts-Genuine token now (part ∷ code ∷ []) payload e h =
      let (same, reads, fresh) = checked_lem part code now _ payload h in
      (part, code, e, same, reads, fresh)
  parts-Genuine token now (part ∷ code ∷ more ∷ parts) payload e h = ground arith

  -- Only a genuine token verifies.
  pub verify-Genuine :
      (token : Text) (now : ℕ) (payload : AuthTokenPayload)
      → verify tk service token now ≡ some payload
      → Genuine token payload now
  unfolding verify
  verify-Genuine token now payload h = parts-Genuine token now (split dot token) payload refl h

  -- The two ways in which a request carries a token: the `Authorization` header, whatever the query
  -- says, or without that header the query.
  abbrev pub Carries : Text → GuardRequest → Type 0
  Carries token r =
      (r.authorization ≡ some (text "Bearer " ++ token))
      ⊎ ((r.authorization ≡ none) × (r.query_token ≡ some token))

  signed_truthy : (subject : Text) (now : ℕ) → nonempty (sign tk service subject now) ≡ true
  unfolding sign
  signed_truthy subject now = nonempty_append (tk.write (payload_for tk service subject now)) _

  signed_unspaced : (subject : Text) (now : ℕ) → has_no_space (sign tk service subject now) ≡ true
  unfolding sign is_space
  signed_unspaced subject now =
      let part = tk.write (payload_for tk service subject now) in
      let code = laws.hmac_unspaced service.secret part in
      unspaced_append part (dot ∷ tk.hmac service.secret part) (laws.write_unspaced _)
        (ground arith)

  after_bearer :
      (token : Text) → after_prefix (text "Bearer ") (text "Bearer " ++ token) ≡ some token
  unfolding ◌==◌
  after_bearer token = refl

  extracted :
      (token : Text) (r : GuardRequest)
      → nonempty token ≡ true
      → has_no_space token ≡ true
      → Carries token r
      → extract_token r ≡ some token
  unfolding extract_token
  extracted token r h k (inl e) = rw (e, after_bearer token, trim_lem token k, h) refl
  extracted token r h k (inr (e, q)) = rw (e, q, h) refl

  guard_token :
      (token : Text) (r : GuardRequest) (now : ℕ)
      → extract_token r ≡ some token
      → can_activate tk service false r now
        ≡ (elim (verify tk service token now) [ none ↦ err logged_out | some p ↦ ok (some p.sub) ])
  unfolding can_activate
  guard_token token r now h = rw h refl

  login_granted :
      (now : ℕ)
      → nonempty service.username ≡ true
      → nonempty service.password ≡ true
      → login tk service service.username service.password now
        ≡ ok (record {
          token = sign tk service service.username now;
          expires_in = service.ttl_seconds;
        })
  unfolding login
  login_granted now h k = rw (h, k, same_hmac service.username, same_hmac service.password) refl

  unequal : (a b : Text) → tk.bytes a ≢ tk.bytes b → safe_equal tk service a b ≡ false
  unfolding safe_equal
  unequal a b h = elim (Bool-cases (tk.bytes a == tk.bytes b)) [
    | inl e ↦ absurd (h ((==_iff (tk.bytes a) (tk.bytes b)).0 e))
    | inr e ↦ e
  ]

  login_refused :
      (username password : Text) (now : ℕ)
      → nonempty service.username ≡ true
      → nonempty service.password ≡ true
      → (tk.bytes username ≢ tk.bytes service.username)
        ⊎ (tk.bytes password ≢ tk.bytes service.password)
      → login tk service username password now ≡ err wrong_credentials
  unfolding login
  login_refused username password now h k (inl d) =
      rw (h, k, unequal username service.username d) refl
  login_refused username password now h k (inr d) =
      elim (Bool-cases (safe_equal tk service username service.username)) [
        | inl e ↦ rw (h, k, e, unequal password service.password d) refl
        | inr e ↦ rw (h, k, e) refl
      ]

  guard_signed :
      (subject : Text) (now later : ℕ) (r : GuardRequest)
      → Carries (sign tk service subject now) r
      → can_activate tk service false r later ≡ (
          if leb (payload_for tk service subject now).exp (later / 1000)
          then err logged_out
          else ok (some subject))
  guard_signed subject now later r carries =
      let token = sign tk service subject now in
      guard_token token r later
        (extracted token r (signed_truthy subject now) (signed_unspaced subject now) carries)
      ∙ elim (Bool-cases (leb (payload_for tk service subject now).exp (later / 1000))) [
        | inl e ↦ rw (verify-sign subject now later, e) refl
        | inr e ↦ rw (verify-sign subject now later, e) refl
      ]

  -- With an administrator set up: the login with the right credentials gives a token. The guard
  -- lets a protected request that carries the token, in its `Authorization` header or without one in
  -- its query, in as that user until `ttlSeconds` seconds after the login, and throws from then on.
  -- A user name or a password with other bytes than the administrator's gives no token: the login
  -- throws.
  pub login_session :
      (now later : ℕ) (r : GuardRequest) (username password : Text)
      → nonempty service.username ≡ true
      → nonempty service.password ≡ true
      → Carries (sign tk service service.username now) r
      → (tk.bytes username ≢ tk.bytes service.username)
        ⊎ (tk.bytes password ≢ tk.bytes service.password)
      → (login tk service service.username service.password now
          ≡ ok (record {
            token = sign tk service service.username now;
            expires_in = service.ttl_seconds;
          }))
        × (can_activate tk service false r later ≡ (
            if leb (now / 1000 + service.ttl_seconds) (later / 1000)
            then err logged_out
            else ok (some service.username)))
        × (login tk service username password now ≡ err wrong_credentials)
  login_session now later r username password h k carries wrong = (
    login_granted now h k,
    guard_signed service.username now later r carries,
    login_refused username password now h k wrong,
  )
