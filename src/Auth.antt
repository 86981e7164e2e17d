-- ===== src/Auth.antt =====
-- The auth module: the signed bearer tokens of auth/auth.service.ts, and the guard of
-- auth/auth.guard.ts. The hash and the encodings are a parameter.
pub mod Session
use social_monitor.Prelude.{
  ℕ, ◌+◌, ◌/◌, Text, text, ◌++◌, ◌==◌, trim, nonempty, truthy, or_null, Bool, true, false, not,
  ◌&&◌, ◌||◌, ltb, leb, List, [], ◌∷◌, Option, none, some, if◌then◌else◌,
}
use social_monitor.Core.{Exception, unauthorized, http_message, Result, ok, err, or_default}
use social_monitor.Splitting.{split, dot}

pub record AuthTokenPayload : Type 0 where
  pub sub : Text
  pub iat : ℕ
  pub exp : ℕ

-- A payload as it is read: a member that is absent or of another type is `none`.
pub record Claims : Type 0 where
  pub sub : Option Text
  pub iat : Option ℕ
  pub exp : Option ℕ

-- The libraries that the tokens rest on: `hmac` is the base64url of the HMAC-SHA256 of a text under
-- a secret; `write` and `read` are the base64url of a payload's JSON and its reading, `none` where
-- that throws or gives null; `bytes` is `Buffer.from`, the UTF-8 of a string.
pub record Tokens : Type 0 where
  pub hmac : (secret : Text) → Text → Text
  pub write : AuthTokenPayload → Text
  pub read : Text → Option Claims
  pub bytes : Text → Text

-- The service, with what its constructor takes from the configuration. That reading is left out.
pub record AuthService : Type 0 where
  pub username : Text
  pub password : Text
  pub secret : Text
  pub ttl_seconds : ℕ

pub record LoginResult : Type 0 where
  pub token : Text
  pub expires_in : ℕ

abbrev pub not_set_up : Exception
not_set_up = http_message unauthorized (text "管理员账号未配置")

abbrev pub wrong_credentials : Exception
wrong_credentials = http_message unauthorized (text "用户名或密码错误")

abbrev pub logged_out : Exception
logged_out = http_message unauthorized (text "未登录或登录已过期")

-- The request, as far as the guard reads it; a `token` of the query that is no string is `none`.
pub record GuardRequest : Type 0 where
  pub authorization : Option Text
  pub query_token : Option Text

abbrev pub after_prefix : Text → Text → Option Text
after_prefix [] s = some s
after_prefix (c ∷ cs) [] = none
after_prefix (c ∷ cs) (x ∷ s) =
    let rest = after_prefix cs s in if c ∷ [] == x ∷ [] then rest else none

abbrev bearer : Option Text → Option Text
bearer none = none
bearer (some header) = after_prefix (text "Bearer ") header

abbrev trimmed : Option Text → Option Text
trimmed none = none
trimmed (some s) = some (trim s)

abbrev when_truthy : Option Text → Option Text
when_truthy s = if truthy s then s else none

unfoldable pub extract_token : GuardRequest → Option Text
unfolding trim
extract_token r =
    let token = trimmed (bearer r.authorization) in
    if truthy token then token else when_truthy r.query_token

module _ (tk : Tokens) (service : AuthService) where
  unfoldable pub safe_equal : Text → Text → Bool
  safe_equal a b = tk.bytes a == tk.bytes b

  abbrev pub payload_for : Text → ℕ → AuthTokenPayload
  payload_for subject now = record {
    sub = subject;
    iat = now / 1000;
    exp = now / 1000 + service.ttl_seconds;
  }

  -- `sign`, at a time in milliseconds.
  unfoldable pub sign : Text → ℕ → Text
  sign subject now =
      let payload_part = tk.write (payload_for subject now) in
      payload_part ++ (dot ∷ tk.hmac service.secret payload_part)

  unfoldable pub login : Text → Text → ℕ → Result LoginResult
  login username password now =
      let granted = ok (record { token = sign username now; expires_in = service.ttl_seconds }) in
      if not (nonempty service.username) || not (nonempty service.password)
      then err not_set_up
      else if not (safe_equal username service.username && safe_equal password service.password)
      then err wrong_credentials
      else granted

  abbrev pub typed : Option Text → Option ℕ → Option ℕ → Option AuthTokenPayload
  typed (some s) (some i) (some e) = some (record { sub = s; iat = i; exp = e })
  typed _ _ _ = none

  abbrev pub read_typed : Option Claims → Option AuthTokenPayload
  read_typed none = none
  read_typed (some c) = typed c.sub c.iat c.exp

  abbrev pub checked : Text → Text → ℕ → Option AuthTokenPayload → Option AuthTokenPayload
  checked payload_part signature_part now none = none
  checked payload_part signature_part now (some payload) =
      if not (safe_equal signature_part (tk.hmac service.secret payload_part))
      then none
      else if leb payload.exp (now / 1000)
      then none
      else some payload

  abbrev pub verify_parts : List Text → ℕ → Option AuthTokenPayload
  verify_parts (payload_part ∷ signature_part ∷ []) now =
      checked payload_part signature_part now (read_typed (tk.read payload_part))
  verify_parts _ now = none

  -- A payload that is the JSON `null` is refused here; the source throws a TypeError for it.
  unfoldable pub verify : Text → ℕ → Option AuthTokenPayload
  verify token now = verify_parts (split dot token) now

  abbrev verify_given : Option Text → ℕ → Option AuthTokenPayload
  verify_given none now = none
  verify_given (some token) now = verify token now

  abbrev admit : Option AuthTokenPayload → Result (Option Text)
  admit none = err logged_out
  admit (some payload) = ok (some payload.sub)

  -- `canActivate`: the user that the request gets, which a public route gets none of.
  unfoldable pub can_activate : Bool → GuardRequest → ℕ → Result (Option Text)
  can_activate is_public request now =
      if is_public then ok none else admit (verify_given (extract_token request) now)
