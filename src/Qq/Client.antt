-- ===== src/Qq/Client.antt =====
-- qq/qq-client.service.ts: the access token and its cache, the gateway address, group messages.
pub mod Token
mod Tests
use social_monitor.Prelude.{
  show, encode_uri_component, ℕ, ◌+◌, ◌*◌, Text, text, Bool, ◌&&◌, List, [], ◌∷◌, ◌++◌, Option,
  none, some, nonempty, ltb, eqb, if◌then◌else◌,
}
use social_monitor.Core.{
  Exception, service_unavailable, http, ok, Action, ◌>>=◌, ◌>>◌, return, throw, catch, require,
  or_default, get, result,
}
use social_monitor.Net.{
  Members, member, as_text, as_number, str, num, Request, Response, is_ok, Network, Io, CachedToken,
  await_fetch,
}

abbrev pub token_refresh_margin_ms : ℕ
token_refresh_margin_ms = 60000

abbrev pub request_timeout_ms : ℕ
request_timeout_ms = 10000

abbrev pub default_token_ttl_seconds : ℕ
default_token_ttl_seconds = 7200

pub record QqClient : Type 0 where
  pub app_id : Text
  pub client_secret : Text
  pub token_url : Text
  pub api_base : Text

-- The constructor, over the reads of the configuration.
unfoldable pub init : (Text → Option Text) → QqClient
init config = record {
  app_id = or_default (config (text "QQ_APP_ID")) [];
  client_secret = or_default (config (text "QQ_APP_SECRET")) [];
  token_url =
      or_default (config (text "QQ_TOKEN_URL")) (text "https://bots.qq.com/app/getAppAccessToken");
  api_base = or_default (config (text "QQ_API_BASE")) (text "https://api.sgroup.qq.com");
}

abbrev pub configured : QqClient → Bool
configured c = nonempty c.app_id && nonempty c.client_secret

abbrev bad_gateway : Text → Text → Exception
bad_gateway message code = http service_unavailable 502 message code

abbrev pub not_configured : Exception
not_configured =
    http service_unavailable 503 (text "QQ 机器人未配置（缺少 QQ_APP_ID / QQ_APP_SECRET）")
      (text "QQ_NOT_CONFIGURED")

abbrev pub token_network_error : Exception
token_network_error =
    bad_gateway (text "无法连接 QQ 开放平台（获取 access_token 失败）") (text "QQ_TOKEN_NETWORK_ERROR")

abbrev pub gateway_network_error : Exception
gateway_network_error =
    bad_gateway (text "无法连接 QQ 开放平台（获取网关接入点失败）") (text "QQ_GATEWAY_NETWORK_ERROR")

abbrev pub send_network_error : Exception
send_network_error = bad_gateway (text "无法连接 QQ 开放平台（发送群消息失败）") (text "QQ_SEND_NETWORK_ERROR")

-- `Number(body.expires_in) || DEFAULT_TOKEN_TTL_SECONDS`
abbrev pub ttl_of : Members → ℕ
ttl_of body =
    let n = or_default (as_number (member (text "expires_in") body)) 0 in
    if eqb n 0 then default_token_ttl_seconds else n

-- `Date.now() < expiresAt - TOKEN_REFRESH_MARGIN_MS`, over the integers.
abbrev pub is_fresh : ℕ → CachedToken → Bool
is_fresh now c = ltb (now + token_refresh_margin_ms) c.expires_at

abbrev pub fresh_token : ℕ → Option CachedToken → Option Text
fresh_token now none = none
fresh_token now (some c) = if is_fresh now c then some c.token else none

abbrev pub token_failed : ℕ → Exception
unfolding show
token_failed status =
    bad_gateway (text "QQ 获取 access_token 失败 (" ++ (show status ++ text ")"))
      (text "QQ_TOKEN_FAILED")

abbrev pub gateway_failed : ℕ → Exception
unfolding show
gateway_failed status =
    bad_gateway (text "QQ 获取网关接入点失败 (" ++ (show status ++ text ")")) (text "QQ_GATEWAY_FAILED")

abbrev pub send_failed : Response → Exception
unfolding show
send_failed r =
    bad_gateway (text "QQ 发送群消息失败 (" ++ (show r.status ++ (text "): " ++ r.body_text)))
      (text "QQ_SEND_FAILED")

abbrev pub json_headers : List (Text × Text)
json_headers = (text "Content-Type", text "application/json") ∷ []

abbrev pub authorization : Text → Text × Text
authorization token = (text "Authorization", text "QQBot " ++ token)

module _ (c : QqClient) where
  abbrev pub token_request : Request
  token_request = record {
    method = text "POST";
    url = c.token_url;
    headers = json_headers;
    body = some ((text "appId", str c.app_id) ∷ (text "clientSecret", str c.client_secret) ∷ []);
    timeout = request_timeout_ms;
  }

  abbrev pub gateway_request : Text → Request
  gateway_request token = record {
    method = text "GET";
    url = c.api_base ++ text "/gateway/bot";
    headers = authorization token ∷ [];
    body = none;
    timeout = request_timeout_ms;
  }

  abbrev pub message_request : Text → Text → Text → Request
  message_request token group content = record {
    method = text "POST";
    url = c.api_base ++ (text "/v2/groups/" ++ (group ++ text "/messages"));
    headers = json_headers ++ (authorization token ∷ []);
    body = some ((text "msg_type", num 0) ∷ (text "content", str content) ∷ []);
    timeout = request_timeout_ms;
  }

module _ {N : Type 0} (w : Network N) (c : QqClient) where
  ensure_configured : Action (Io N) (Unit {0})
  ensure_configured = require (configured c) not_configured

  store_token : Text → ℕ → Action (Io N) Text
  store_token t ttl io = (
    ok t,
    record io {
      cached_token = some (record { token = t; expires_at = w.now io.net + ttl * 1000 });
    },
  )

  read_token : Response → Members → Action (Io N) Text
  unfolding store_token
  read_token r body = elim (as_text (member (text "access_token") body)) [
    | none ↦ throw (token_failed r.status)
    | some t ↦
        if is_ok r && nonempty t then store_token t (ttl_of body) else throw (token_failed r.status)
  ]

  unfoldable pub fetch_access_token : Action (Io N) Text
  unfolding await_fetch read_token
  fetch_access_token = do
    r ← catch (await_fetch w (token_request c)) (λ _. throw token_network_error)
    body ← result r.json
    read_token r body

  abbrev from_cache : Option Text → Action (Io N) Text
  from_cache none = fetch_access_token
  from_cache (some t) = return t

  unfoldable pub get_access_token : Action (Io N) Text
  unfolding ensure_configured fetch_access_token
  get_access_token = do
    ensure_configured
    io ← get
    from_cache (fresh_token (w.now io.net) io.cached_token)

  read_url : Response → Members → Action (Io N) Text
  read_url r body = elim (as_text (member (text "url") body)) [
    | none ↦ throw (gateway_failed r.status)
    | some url ↦ if is_ok r && nonempty url then return url else throw (gateway_failed r.status)
  ]

  unfoldable pub resolve_gateway_url : Action (Io N) Text
  unfolding ensure_configured get_access_token await_fetch read_url
  resolve_gateway_url = do
    ensure_configured
    token ← get_access_token
    r ← catch (await_fetch w (gateway_request c token)) (λ _. throw gateway_network_error)
    body ← result r.json
    read_url r body

  -- The address is built inside the `try`, so a URIError counts as a network error too.
  post_message : Text → Text → Text → Action (Io N) Response
  unfolding await_fetch encode_uri_component
  post_message token group_openid content = elim (encode_uri_component group_openid) [
    | none ↦ throw send_network_error
    | some group ↦
        catch (await_fetch w (message_request c token group content))
          (λ _. throw send_network_error)
  ]

  unfoldable pub send_group_message : Text → Text → Action (Io N) (Unit {0})
  unfolding ensure_configured get_access_token post_message show
  send_group_message group_openid content = do
    ensure_configured
    token ← get_access_token
    r ← post_message token group_openid content
    require (is_ok r) (send_failed r)
