-- ===== src/Web/Client.antt =====
-- apps/web/lib/api/client.ts and apps/web/lib/auth.ts: requests of the API from the browser.
mod Requests
use social_monitor.Prelude.{
  ℕ, Text, text, ◌==◌, nonempty, Bool, true, false, not, eqb, show, join, List, [], ◌∷◌, ◌++◌,
  Option, none, some, if◌then◌else◌,
}
use social_monitor.Core.{
  Exception, error, Result, ok, err, Action, ◌>>=◌, ◌>>◌, continue, return, throw, or_default,
}
use social_monitor.Net.{
  Scalar, str, num, bool, null, json, Members, member, Request, Response, is_ok, Network, Io,
  await_fetch,
}

-- The environment of the build.
pub record Site : Type 0 where
  pub base_path : Text
  pub api_base_url : Text

unfoldable pub site_of : (Text → Option Text) → Site
site_of env = record {
  base_path = or_default (env (text "NEXT_PUBLIC_BASE_PATH")) [];
  api_base_url =
      or_default (env (text "NEXT_PUBLIC_API_BASE_URL")) (text "http://localhost:3001")
      ++ text "/api";
}

abbrev pub login_path : Site → Text
login_path site = site.base_path ++ text "/login"

-- What a call changes in the browser: the outgoing calls, the token in the local storage, and
-- `window.location.pathname`.
pub record Browser (N : Type 0) : Type 0 where
  pub io : Io N
  pub token : Option Text
  pub pathname : Text

module _ {N : Type 0} where
  abbrev pub get_token : Browser N → Option Text
  get_token b = b.token

  abbrev pub set_token : Text → Browser N → Browser N
  set_token token b = record b { token = some token }

  abbrev pub clear_token : Browser N → Browser N
  clear_token b = record b { token = none }

  abbrev pub in_net : {A : Type 0} → Browser N → Result A × Io N → Result A × Browser N
  in_net b (r, i) = (r, record b { io = i })

  abbrev pub on_net : {A : Type 0} → Action (Io N) A → Action (Browser N) A
  on_net m b = in_net b (m b.io)

unfoldable pub auth_headers : Option Text → List (Text × Text)
auth_headers none = []
auth_headers (some token) =
    if nonempty token then (text "Authorization", text "Bearer " ++ token) ∷ [] else []

-- `init`: the method and the body.
pub record Init : Type 0 where
  pub method : Text
  pub body : Option Members

abbrev pub session_expired : Exception
session_expired = error (text "登录已过期，请重新登录")

-- `body.message`, if it is truthy: itself, or its JSON.
abbrev pub shown : Option Scalar → Text → Text
unfolding show
shown none fallback = fallback
shown (some (str s)) fallback = if nonempty s then s else fallback
shown (some (num n)) fallback = if eqb n 0 then fallback else show n
shown (some (bool true)) fallback = text "true"
shown (some (bool false)) fallback = fallback
shown (some null) fallback = fallback
shown (some (json s)) fallback = s

abbrev pub message_in : Result Members → Text → Text
message_in (ok ms) fallback = shown (member (text "message") ms) fallback
message_in (err e) fallback = fallback

abbrev pub error_message : Response → Text
unfolding show
error_message r = message_in r.json (text "API request failed with status " ++ show r.status)

-- Next to the JSON of the answer stand its members that are lists.
abbrev pub parsed : {S : Type 0} → Response → Action S Response
parsed r s = continue (λ _. return r) (r.json, s)

module _ {N : Type 0} (w : Network N) (site : Site) where
  -- A call of `fetch` without a time limit.
  abbrev pub api_request : Init → Text → Option Text → Request
  unfolding auth_headers
  api_request init path token = record {
    method = init.method;
    url = site.api_base_url ++ path;
    headers =
        (text "Content-Type", text "application/json")
        ∷ (text "Accept", text "application/json")
        ∷ auth_headers token;
    body = init.body;
    timeout = 0;
  }

  -- `window.location.replace`, unless the login page is shown.
  abbrev pub at_login : Browser N → Browser N
  at_login b = if b.pathname == login_path site then b else record b { pathname = login_path site }

  abbrev pub bounce : Action (Browser N) Response
  bounce b = (err session_expired, at_login (clear_token b))

  abbrev pub received : Response → Action (Browser N) Response
  received r =
      if eqb r.status 401
      then bounce
      else if not (is_ok r)
      then throw (error (error_message r))
      else parsed r

  unfoldable pub request : Init → Text → Action (Browser N) Response
  unfolding await_fetch
  request init path b =
      continue received (on_net (await_fetch w (api_request init path (get_token b))) b)

  unfoldable pub api_get : Text → Action (Browser N) Response
  unfolding request
  api_get path = request (record { method = text "GET"; body = none }) path

  unfoldable pub api_post : Text → Option Members → Action (Browser N) Response
  unfolding request
  api_post path body = request (record { method = text "POST"; body = body }) path

  unfoldable pub api_patch : Text → Option Members → Action (Browser N) Response
  unfolding request
  api_patch path body = request (record { method = text "PATCH"; body = body }) path

  unfoldable pub api_delete : Text → Action (Browser N) Response
  unfolding request
  api_delete path = request (record { method = text "DELETE"; body = none }) path

pub data QueryValue : Type 0 where
  text_value : Text → QueryValue
  number_value : ℕ → QueryValue
  bool_value : Bool → QueryValue

-- `String(value)`
abbrev pub to_string : QueryValue → Text
unfolding show
to_string (text_value s) = s
to_string (number_value n) = show n
to_string (bool_value true) = text "true"
to_string (bool_value false) = text "false"

-- `value !== undefined && value !== ""`
abbrev pub is_given : Option QueryValue → Bool
is_given none = false
is_given (some (text_value s)) = nonempty s
is_given (some (number_value n)) = true
is_given (some (bool_value b)) = true

abbrev value_text : Option QueryValue → Text
value_text none = []
value_text (some v) = to_string v

abbrev pub Query : Type 0
Query = List (Text × Option QueryValue)

-- The entries that are set, in their order; the keys of an object differ.
unfoldable pub given : Query → List (Text × Text)
given [] = []
given ((k, v) ∷ rest) =
    let others = given rest in if is_given v then (k, value_text v) ∷ others else others

-- `URLSearchParams` over the encoding of a key or a value.
module _ (encode : Text → Text) where
  abbrev pub pair_text : Text × Text → Text
  pair_text (k, v) = encode k ++ (text "=" ++ encode v)

  unfoldable pub pair_texts : List (Text × Text) → List Text
  pair_texts [] = []
  pair_texts (p ∷ ps) = pair_text p ∷ pair_texts ps

  unfoldable pub build_query : Query → Text
  unfolding given pair_texts join
  build_query params =
      let qs = join (text "&") (pair_texts (given params)) in
      if nonempty qs then text "?" ++ qs else []
