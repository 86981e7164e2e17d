-- ===== src/Telegram/Sidecar/Requests.antt =====
-- What the calls of telegram/telegram-client-manager.service.ts send and throw.
mod Tests
use social_monitor.Prelude.{
  ℕ, ◌≡◌, refl, sym, ap, ◌∙◌, Text, text, Bool, true, false, List, [], ◌∷◌, ◌++◌, Option, none,
  some, arith, Bool-cases, inl, inr, leb, if◌then◌else◌,
}
use social_monitor.Core.{
  Exception, http, http_message, error, known_request, value, http_status, Result, ok, err, Action,
  continue, return, rescue, throw,
}
use social_monitor.Net.{
  Members, member, as_text, str, Request, Response, Outcome, rejected, response, is_ok, Network, Io,
  await_fetch, settle,
}
use social_monitor.Telegram.Sidecar.{
  TelegramClientManager, Payload, request, worker_request, read_response, unreachable,
  sidecar_error, payload_of, default_timeout_ms, connect_with_session, is_healthy, disconnect,
  get_status, is_true, equals,
}

-- An exception whose body names the status that it is sent with.
abbrev pub Agrees : Exception → Type 0
Agrees (http kind status_code m c) = status_code ≡ http_status kind
Agrees (http_message kind m) = Unit {0}
Agrees (error m) = ⊥
Agrees (known_request c m) = ⊥
Agrees (value v) = ⊥

abbrev pub Answered : {A : Type 0} → Result A → Type 0
Answered (ok a) = Unit {0}
Answered (err e) = Agrees e

-- Going on without touching the state.
pub after_return :
    {S A B : Type 0} (f : A → B) (x : Result A × S) → (continue (λ a. return (f a)) x).1 ≡ x.1
after_return f (ok a, s) = refl
after_return f (err e, s) = refl

module _ {N : Type 0} (w : Network N) (m : TelegramClientManager) where
  read_state : (r : Response) (io : Io N) → (read_response w m r io).1 ≡ io
  read_state r io = elim (Bool-cases (is_ok r)) [ inl e ↦ rw e refl | inr e ↦ rw e refl ]

  sidecar_error-Agrees : (r : Response) → Agrees (sidecar_error r)
  unfolding sidecar_error
  sidecar_error-Agrees r = elim (Bool-cases (leb 500 r.status)) [
    | inl e ↦ rw e refl
    | inr e ↦ rw e refl
  ]

  read-Answered : (r : Response) (io : Io N) → Answered (read_response w m r io).0
  read-Answered r io = elim (Bool-cases (is_ok r)) [
    | inl e ↦ rw e tt
    | inr e ↦ rw e (sidecar_error-Agrees r)
  ]

  abbrev caught : Result Response × Io N → Result Payload × Io N
  caught x = continue (read_response w m) (rescue (λ e. throw (unreachable m e)) x)

  settled_requests :
      (o : Outcome) (n : N) (io : Io N) → (caught (settle io (o, n))).1.requests ≡ io.requests
  settled_requests (rejected e) n io = refl
  settled_requests (response r) n io =
      ap (λ (s : Io N). s.requests) (read_state r (record io { net = n }))

  settled-Answered : (o : Outcome) (n : N) (io : Io N) → Answered (caught (settle io (o, n))).0
  settled-Answered (rejected e) n io = refl
  settled-Answered (response r) n io = read-Answered r (record io { net = n })

  -- Whatever the network and the worker do, a call sends one request, and the body of the exception
  -- that it may throw names the status that goes with its class.
  pub request-Answered :
      (method path : Text) (body : Option Members) (timeout : ℕ) (io : Io N)
      → Answered (request w m method path body timeout io).0
        × ((request w m method path body timeout io).1.requests
            ≡ io.requests ++ (worker_request m method path body timeout ∷ []))
  unfolding request await_fetch
  request-Answered method path body timeout io =
      let r = worker_request m method path body timeout in
      let (o, n) = w.fetch r io.net in
      let sent = record io { requests = io.requests ++ (r ∷ []) } in
      (settled-Answered o n sent, settled_requests o n sent)

  abbrev pub connect_request : Text → Text → Request
  connect_request phone session =
      worker_request m (text "POST") (text "/connect")
        (some ((text "phone", str phone) ∷ (text "session", str session) ∷ [])) default_timeout_ms

  pub connect_requests :
      (phone session : Text) (io : Io N)
      → (connect_with_session w m phone session io).1.requests
        ≡ io.requests ++ (connect_request phone session ∷ [])
  unfolding connect_with_session
  connect_requests phone session io =
      ap (λ (s : Io N). s.requests) (after_return (λ _. tt) _)
      ∙ (request-Answered (text "POST") (text "/connect") _ default_timeout_ms io).1

  abbrev pub health_request : Request
  health_request = worker_request m (text "GET") (text "/health") none 5000

  -- The answer that a probe got.
  never_thrown :
      {A S : Type 0} (f : A → Bool) (x : Result A × S)
      → let r = rescue (λ _. return false) (continue (λ a. return (f a)) x) in
        ((b : Bool) × (r.0 ≡ ok b)) × (r.1 ≡ x.1)
  never_thrown f (ok a, s) = ((f a, refl), refl)
  never_thrown f (err e, s) = ((false, refl), refl)

  -- The liveness probe never throws, whatever the network and the worker do, and sends one request.
  pub is_healthy_total :
      (io : Io N)
      → (b : Bool) × ((is_healthy w m io).0 ≡ ok b)
        × ((is_healthy w m io).1.requests ≡ io.requests ++ (health_request ∷ []))
  unfolding is_healthy
  is_healthy_total io =
      let answer = request w m (text "GET") (text "/health") none 5000 io in
      let ((b, done), state) =
        never_thrown (λ a. equals (as_text (member (text "status") a.members)) (text "ok"))
          answer in
      (
        b,
        done,
        ap (λ (s : Io N). s.requests) state
            ∙ (request-Answered (text "GET") (text "/health") none 5000 io).1,
      )
