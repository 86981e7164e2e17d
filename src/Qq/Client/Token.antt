-- ===== src/Qq/Client/Token.antt =====
-- The token cache of qq/qq-client.service.ts.
use social_monitor.Prelude.{
  ℕ, ◌+◌, ◌≡◌, Text, Bool, true, false, nonempty, [], ◌∷◌, ◌++◌, Option, none, some, arith, ◌<◌,
  if◌then◌else◌,
}
use social_monitor.Core.{Exception, ok, err}
use social_monitor.Net.{Network, Io, CachedToken}
use social_monitor.Qq.Client.{
  QqClient, configured, not_configured, fetch_access_token, get_access_token, token_request,
  send_group_message, resolve_gateway_url, token_refresh_margin_ms, fresh_token,
}

-- The token that the cache holds, fresh or not.
abbrev pub held : Option CachedToken → Option Text
held none = none
held (some c) = some c.token

abbrev pub expiry : Option CachedToken → ℕ
expiry none = 0
expiry (some c) = c.expires_at

abbrev pub is_some {ℓ} : {A : Type ℓ} → Option A → Bool
is_some none = false
is_some (some a) = true

fresh-held :
    (now : ℕ) (o : Option CachedToken) (t : Text)
    → held o ≡ some t
    → now + token_refresh_margin_ms < expiry o
    → fresh_token now o ≡ some t
fresh-held now o t h early = ground arith

module _ {N : Type 0} (w : Network N) (c : QqClient) where
  -- Without credentials no operation of the client makes a request: each throws QQ_NOT_CONFIGURED
  -- and leaves the state as it was.
  pub unconfigured_throws :
      (io : Io N) (group content : Text)
      → configured c ≡ false
      → (get_access_token w c io ≡ (err not_configured, io))
        × (resolve_gateway_url w c io ≡ (err not_configured, io))
        × (send_group_message w c group content io ≡ (err not_configured, io))
  unfolding get_access_token resolve_gateway_url send_group_message
  unconfigured_throws io group content h = (rw h, rw h, rw h)

  fetch-cached :
      (io io' : Io N) (t : Text)
      → fetch_access_token w c io ≡ (ok t, io')
      → (held io'.cached_token ≡ some t)
        × (nonempty t ≡ true)
        × (io'.requests ≡ io.requests ++ (token_request c ∷ []))
  unfolding fetch_access_token
  fetch-cached io io' t h = (ground arith, ground arith, ground arith)

  -- A token that is returned is non-empty or came out of the cache, and is the cached one from
  -- then on.
  get-held :
      (io io' : Io N) (t : Text)
      → get_access_token w c io ≡ (ok t, io')
      → held io'.cached_token ≡ some t
  unfolding get_access_token
  get-held io io' t h = ground arith

  get-configured :
      (io io' : Io N) (t : Text) → get_access_token w c io ≡ (ok t, io') → configured c ≡ true
  unfolding get_access_token
  get-configured io io' t h = ground arith

  -- A token that is fresh is answered from the cache: no request, and no change of state.
  from_cache_lem :
      (io : Io N) (t : Text)
      → configured c ≡ true
      → fresh_token (w.now io.net) io.cached_token ≡ some t
      → get_access_token w c io ≡ (ok t, io)
  unfolding get_access_token
  from_cache_lem io t h f = ground arith

  -- A returned token is the one in the cache, and is returned again with no request for as long as
  -- the clock reads less than its expiry minus the margin of a minute.
  pub get_access_token_again :
      (io io' later : Io N) (t : Text)
      → get_access_token w c io ≡ (ok t, io')
      → later.cached_token ≡ io'.cached_token
      → w.now later.net + token_refresh_margin_ms < expiry io'.cached_token
      → get_access_token w c later ≡ (ok t, later)
  get_access_token_again io io' later t h same early =
      from_cache_lem later t (get-configured io io' t h)
        (rw same (fresh-held (w.now later.net) io'.cached_token t (get-held io io' t h) early))

  -- A call makes at most one request, which is the token request, and makes none exactly when the cached token is fresh.
  pub get_access_token_requests :
      (io : Io N)
      → configured c ≡ true
      → ((get_access_token w c io).1).requests ≡ (
          if is_some (fresh_token (w.now io.net) io.cached_token)
          then io.requests
          else io.requests ++ (token_request c ∷ []))
  unfolding get_access_token
  get_access_token_requests io h = ground arith

  -- What a failing call leaves in the cache is what was there.
  pub get_access_token_failure :
      (io io' : Io N) (e : Exception)
      → get_access_token w c io ≡ (err e, io')
      → io'.cached_token ≡ io.cached_token
  unfolding get_access_token
  get_access_token_failure io io' e h = ground arith
