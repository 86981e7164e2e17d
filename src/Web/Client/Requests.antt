-- ===== src/Web/Client/Requests.antt =====
-- What a request of apps/web/lib/api/client.ts does to the session.
mod Tests
use social_monitor.Prelude.{
  ℕ, ◌≡◌, refl, sym, ap, subst, text, show, nonempty, ◌∙◌, Text, ◌==◌, ==_iff, Bool, true, false,
  not, ◌&&◌, eqb, List, [], ◌∷◌, ◌++◌, Option, none, some, arith, if◌then◌else◌, Bool-cases, inl,
  inr,
}
use social_monitor.Core.{
  Exception, error, Result, ok, err, Action, continue, throw, return, or_default,
}
use social_monitor.Net.{
  Scalar, str, num, bool, null, json, member, Members, Request, Response, Outcome, rejected,
  response, is_ok, Network, Io, await_fetch, settle,
}
use social_monitor.Web.Client.{
  Site, Browser, Init, login_path, api_request, request, received, bounce, session_expired,
  error_message, shown, message_in, auth_headers, parsed, at_login, in_net, clear_token,
}

-- What the message of a failed answer says, if it says anything: a text that is not empty, and any
-- other truthy value by its JSON.
abbrev told : Option Scalar → Option Text
unfolding show
told (some (str s)) = if nonempty s then some s else none
told (some (num n)) = if eqb n 0 then none else some (show n)
told (some (bool b)) = if b then some (text "true") else none
told (some (json s)) = some s
told _ = none

abbrev told_in : Result Members → Option Text
told_in (ok ms) = told (member (text "message") ms)
told_in (err e) = none

abbrev pub refusal : Response → Text
unfolding show
refusal r = or_default (told_in r.json) (text "API request failed with status " ++ show r.status)

shown_lem : (m : Option Scalar) (fallback : Text) → shown m fallback ≡ or_default (told m) fallback
unfolding show
shown_lem none t = refl
shown_lem (some (str s)) t = elim (Bool-cases (nonempty s)) [
  | inl e ↦ rw e refl
  | inr e ↦ rw e refl
]
shown_lem (some (num n)) t = elim (Bool-cases (eqb n 0)) [ inl e ↦ rw e refl | inr e ↦ rw e refl ]
shown_lem (some (bool true)) t = refl
shown_lem (some (bool false)) t = refl
shown_lem (some null) t = refl
shown_lem (some (json s)) t = refl

message_in_lem :
    (j : Result Members) (fallback : Text) → message_in j fallback ≡ or_default (told_in j) fallback
message_in_lem (ok ms) t = shown_lem (member (text "message") ms) t
message_in_lem (err e) t = refl

refusal_lem : (r : Response) → error_message r ≡ refusal r
unfolding show
refusal_lem r = message_in_lem r.json _

-- The headers of a request by the token that is stored.
abbrev pub headers_for : Option Text → List (Text × Text)
headers_for (some (c ∷ cs)) =
    (text "Content-Type", text "application/json")
    ∷ (text "Accept", text "application/json")
    ∷ (text "Authorization", text "Bearer " ++ (c ∷ cs))
    ∷ []
headers_for _ =
    (text "Content-Type", text "application/json") ∷ (text "Accept", text "application/json") ∷ []

abbrev answer_of : Response → Result Members → Result Response
answer_of r (ok ms) = ok r
answer_of r (err e) = err e

-- The end of a request, by how `fetch` settled.
abbrev pub response_result : Response → Result Response
response_result r =
    if eqb r.status 401
    then err (error (text "登录已过期，请重新登录"))
    else if not (is_ok r)
    then err (error (refusal r))
    else answer_of r r.json

abbrev pub outcome_result : Outcome → Result Response
outcome_result (rejected e) = err e
outcome_result (response r) = response_result r

abbrev pub is_unauthorized : Outcome → Bool
is_unauthorized (rejected e) = false
is_unauthorized (response r) = eqb r.status 401

module _ {N : Type 0} (w : Network N) (site : Site) where
  at_login_path : (b : Browser N) → (at_login w site b).pathname ≡ login_path site
  at_login_path b = elim (Bool-cases (b.pathname == login_path site)) [
    | inl e ↦ rw e ((==_iff b.pathname (login_path site)).0 e)
    | inr e ↦ rw e refl
  ]

  -- What is left in the browser, after an answer that is unauthorized or is not.
  abbrev pub SessionAfter : Bool → Browser N → Browser N → Type 0
  SessionAfter unauthorized before after =
      (after.token ≡ (if unauthorized then none else before.token))
      × (after.pathname ≡ (if unauthorized then login_path site else before.pathname))
      × (after.io ≡ before.io)

  at_login_rest :
      (b : Browser N) → ((at_login w site b).token ≡ b.token) × ((at_login w site b).io ≡ b.io)
  at_login_rest b = elim (Bool-cases (b.pathname == login_path site)) [
    | inl e ↦ rw e (refl, refl)
    | inr e ↦ rw e (refl, refl)
  ]

  parsed_lem :
      (j : Result Members) (r : Response) (b : Browser N)
      → (continue (λ _. return r) (j, b)).0 ≡ answer_of r j
        × ((continue (λ _. return r) (j, b)).1 ≡ b)
  parsed_lem (ok ms) r b = (refl, refl)
  parsed_lem (err e) r b = (refl, refl)

  kept : (b : Browser N) → SessionAfter false b b
  kept b = (refl, refl, refl)

  parsed_kept :
      (j : Result Members) (r : Response) (b : Browser N)
      → SessionAfter false b (continue (λ _. return r) (j, b)).1
  parsed_kept (ok ms) r b = kept b
  parsed_kept (err e) r b = kept b

  received_lem :
      (r : Response) (b : Browser N)
      → ((received w site r b).0 ≡ response_result r)
        × SessionAfter (eqb r.status 401) b (received w site r b).1
  received_lem r b = elim (Bool-cases (eqb r.status 401)) [
    | inl e ↦
        let (token, io) = at_login_rest (clear_token b) in
        rw e (refl, (token, at_login_path (clear_token b), io))
    | inr e ↦ elim (Bool-cases (is_ok r)) [
      | inl k ↦ rw (e, k) ((parsed_lem r.json r b).0, parsed_kept r.json r b)
      | inr k ↦ rw (e, k) (ap (λ m. err (error m)) (refusal_lem r), kept b)
    ]
  ]

  settled :
      (o : Outcome) (n : N) (io : Io N) (b : Browser N)
      → let t = continue (received w site) (in_net b (settle io (o, n))) in
        (t.0 ≡ outcome_result o)
        × (t.1.token ≡ (if is_unauthorized o then none else b.token))
        × (t.1.pathname ≡ (if is_unauthorized o then login_path site else b.pathname))
        × (t.1.io.requests ≡ io.requests)
  settled (rejected e) n io b = (refl, refl, refl, refl)
  settled (response r) n io b =
      let (result, (token, path, same)) =
        received_lem r (record b { io = record io { net = n } }) in
      (result, token, path, ap (λ (i : Io N). i.requests) same)

  -- The call that a request makes.
  abbrev pub call_of : Init → Text → Option Text → Request
  call_of init path token = record {
    method = init.method;
    url = site.api_base_url ++ path;
    headers = headers_for token;
    body = init.body;
    timeout = 0;
  }

  call_lem :
      (init : Init) (path : Text) (token : Option Text)
      → api_request w site init path token ≡ call_of init path token
  unfolding auth_headers
  call_lem init path none = refl
  call_lem init path (some []) = refl
  call_lem init path (some (c ∷ cs)) = refl

  abbrev Requested : Init → Text → Browser N → Request → Type 0
  Requested init path b sent =
      let o = (w.fetch sent b.io.net).0 in
      let t = request w site init path b in
      (t.0 ≡ outcome_result o)
      × (t.1.token ≡ (if is_unauthorized o then none else b.token))
      × (t.1.pathname ≡ (if is_unauthorized o then login_path site else b.pathname))
      × (t.1.io.requests ≡ b.io.requests ++ (sent ∷ []))

  requested :
      (init : Init) (path : Text) (b : Browser N)
      → Requested init path b (api_request w site init path b.token)
  unfolding request await_fetch
  requested init path b =
      let sent = api_request w site init path b.token in
      let (o, n) = w.fetch sent b.io.net in
      settled o n (record b.io { requests = b.io.requests ++ (sent ∷ []) }) b

  -- A request sends one call, of the method and the body under the base address and the path, with
  -- the two JSON headers and, where a token is stored that is not empty, `Authorization` with
  -- `Bearer` and the token. Where the answer is 401, and only there, the token is cleared and the
  -- browser is at the login page after it, and the request throws that the session has expired; any
  -- other failed answer throws an error with the message of its body, an array or an object as its
  -- JSON, or else with its status; a success gives the answer, and throws if that is no JSON; and a
  -- call that is rejected throws the same.
  pub request_lem :
      (init : Init) (path : Text) (b : Browser N)
      → let sent = call_of init path b.token in
        let o = (w.fetch sent b.io.net).0 in
        let t = request w site init path b in
        (t.0 ≡ outcome_result o)
        × (t.1.token ≡ (if is_unauthorized o then none else b.token))
        × (t.1.pathname ≡ (if is_unauthorized o then login_path site else b.pathname))
        × (t.1.io.requests ≡ b.io.requests ++ (sent ∷ []))
  request_lem init path b =
      subst (Requested init path b) (call_lem init path b.token) (requested init path b)
