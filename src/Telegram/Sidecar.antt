-- ===== src/Telegram/Sidecar.antt =====
-- telegram/telegram-client-manager.service.ts: the HTTP calls of the Telegram worker. Logging is
-- left out.
pub mod Requests
use social_monitor.Prelude.{
  ℕ, Text, text, ◌++◌, ◌==◌, nonempty, Bool, true, false, not, ◌&&◌, leb, eqb, show, List, [], ◌∷◌,
  Option, none, some, if◌then◌else◌,
}
use social_monitor.Core.{
  Exception, bad_request, service_unavailable, http, message_of, Result, ok, err, Action, ◌>>=◌,
  ◌>>◌, continue, return, throw, catch, rescue, or_default,
}
use social_monitor.Net.{
  Scalar, str, Members, member, as_text, as_bool, Request, Response, is_ok, Network, Io,
  await_fetch,
}
use social_monitor.Qq.Client.{json_headers}

pub record TelegramClientManager : Type 0 where
  pub base_url : Text
  pub secret : Text

-- `.replace(/\/+$/, "")`
abbrev pub strip_slashes : Text → Text
strip_slashes [] = []
strip_slashes (x ∷ xs) =
    let rest = strip_slashes xs in if eqb x 47 && not (nonempty rest) then [] else x ∷ rest

-- The constructor, over the reads of the configuration.
unfoldable pub init : (Text → Option Text) → TelegramClientManager
init config = record {
  base_url =
      strip_slashes
        (or_default (config (text "TELEGRAM_SIDECAR_URL")) (text "http://localhost:9400"));
  secret = or_default (config (text "INTERNAL_API_SECRET")) [];
}

-- The members of an answer, and those that are lists of objects.
pub record Payload : Type 0 where
  pub members : Members
  pub arrays : List (Text × List Members)

abbrev pub array : Text → List (Text × List Members) → Option (List Members)
array k [] = none
array k ((j, v) ∷ rest) = if j == k then some v else array k rest

-- `await response.json().catch(() => ({}))`
abbrev payload_as : Result Members → List (Text × List Members) → Payload
payload_as (ok ms) arrays = record { members = ms; arrays = arrays }
payload_as (err e) arrays = record { members = []; arrays = [] }

abbrev pub payload_of : Response → Payload
payload_of r = payload_as r.json r.arrays

abbrev pub sidecar_error : Response → Exception
unfolding show
sidecar_error r =
    let ms = (payload_of r).members in
    let message =
      or_default (as_text (member (text "message") ms))
        (text "Sidecar request failed with status " ++ show r.status) in
    let code = or_default (as_text (member (text "code") ms)) (text "TELEGRAM_SIDECAR_ERROR") in
    if leb 500 r.status
    then http service_unavailable 503 message code
    else http bad_request 400 message code

abbrev pub default_timeout_ms : ℕ
default_timeout_ms = 35000

-- What `getStatus` and `sendCode` answer.
pub record TelegramStatus : Type 0 where
  pub phone : Option Text
  pub connected : Bool

pub record SentCode : Type 0 where
  pub phone_code_hash : Option Text
  pub is_code_via_app : Option Bool

-- `x === true`
abbrev pub is_true : Option Bool → Bool
is_true (some true) = true
is_true _ = false

-- `x === s`
abbrev pub equals : Option Text → Text → Bool
equals none s = false
equals (some t) s = t == s

module _ (m : TelegramClientManager) where
  abbrev pub worker_headers : List (Text × Text)
  worker_headers =
      if nonempty m.secret
      then json_headers ++ ((text "X-Internal-Secret", m.secret) ∷ [])
      else json_headers

  abbrev pub worker_request : Text → Text → Option Members → ℕ → Request
  worker_request method path body timeout = record {
    method = method;
    url = m.base_url ++ path;
    headers = worker_headers;
    body = body;
    timeout = timeout;
  }

  abbrev pub unreachable : Exception → Exception
  unreachable e =
      http service_unavailable 503
        (text "Telegram worker (" ++ (m.base_url ++ (text ") unreachable: " ++ message_of e)))
        (text "TELEGRAM_WORKER_UNREACHABLE")

module _ {N : Type 0} (w : Network N) (m : TelegramClientManager) where
  abbrev read_response : Response → Action (Io N) Payload
  read_response r = if is_ok r then return (payload_of r) else throw (sidecar_error r)

  -- A body that is the JSON `null` has no members here; for a failed answer the source throws a
  -- TypeError for it.
  unfoldable pub request : Text → Text → Option Members → ℕ → Action (Io N) Payload
  unfolding await_fetch
  request method path body timeout = do
    r ←
        catch (await_fetch w (worker_request m method path body timeout))
          (λ e. throw (unreachable m e))
    read_response r

  abbrev pub get_json : Text → Action (Io N) Payload
  get_json path = request (text "GET") path none default_timeout_ms

  abbrev pub post_json : Text → Members → Action (Io N) Payload
  post_json path body = request (text "POST") path (some body) default_timeout_ms

  unfoldable pub get_status : Action (Io N) TelegramStatus
  get_status = do
    answer ← get_json (text "/status")
    return (record {
      phone = as_text (member (text "currentPhone") answer.members);
      connected = is_true (as_bool (member (text "connected") answer.members));
    })

  unfoldable pub is_healthy : Action (Io N) Bool
  is_healthy =
      catch
        (do
          answer ← request (text "GET") (text "/health") none 5000
          return (equals (as_text (member (text "status") answer.members)) (text "ok")))
        (λ _. return false)

  -- `fetchDialogs`, `fetchChannels` and `fetchGroups` differ in their paths.
  unfoldable pub fetch_list : Text → Action (Io N) (List Members)
  fetch_list path = do
    answer ← get_json path
    return (or_default (array (text "data") answer.arrays) [])

  unfoldable pub connect_with_session : Text → Text → Action (Io N) (Unit {0})
  connect_with_session phone session = do
    _ ← post_json (text "/connect") ((text "phone", str phone) ∷ (text "session", str session) ∷ [])
    return tt

  unfoldable pub send_code : Text → Action (Io N) SentCode
  send_code phone = do
    answer ← post_json (text "/login/start") ((text "phone", str phone) ∷ [])
    return (record {
      phone_code_hash = as_text (member (text "phoneCodeHash") answer.members);
      is_code_via_app = as_bool (member (text "isCodeViaApp") answer.members);
    })

  -- Whether a password is required.
  unfoldable pub submit_code : Text → Text → Action (Io N) Bool
  submit_code phone code = do
    answer ←
        post_json (text "/login/code") ((text "phone", str phone) ∷ (text "code", str code) ∷ [])
    return (is_true (as_bool (member (text "passwordRequired") answer.members)))

  unfoldable pub submit_password : Text → Text → Action (Io N) (Unit {0})
  submit_password phone password = do
    _ ←
        post_json (text "/login/password")
          ((text "phone", str phone) ∷ (text "password", str password) ∷ [])
    return tt

  -- The answer is declared to have a session, which is not checked.
  unfoldable pub save_session : Text → Action (Io N) (Option Text)
  save_session phone = do
    answer ← post_json (text "/save-session") ((text "phone", str phone) ∷ [])
    return (as_text (member (text "session") answer.members))

  unfoldable pub disconnect : Text → Action (Io N) (Unit {0})
  disconnect phone = do
    _ ← post_json (text "/disconnect") ((text "phone", str phone) ∷ [])
    return tt
