-- ===== src/Core.antt =====
-- What the services share: the exceptions that they throw, actions that change a state and may
-- throw, and the response wrappers of packages/shared/src/index.ts.
use social_monitor.Prelude.{ℕ, Text, text, Bool, true, false, List, ◌==◌, Option, none, some}

-- The exception classes of @nestjs/common that the program throws.
pub data HttpKind : Type 0 where
  bad_request unauthorized not_found conflict service_unavailable : HttpKind

-- The status line that the framework sends for an exception of the class.
abbrev pub http_status : HttpKind → ℕ
http_status bad_request = 400
http_status unauthorized = 401
http_status not_found = 404
http_status conflict = 409
http_status service_unavailable = 503

-- A thrown value. `http` is an exception built from a body `{ statusCode, message, code }`,
-- `http_message` one built from a message alone, `error` an `Error`, `known_request` an error of
-- the database client with its code, `value` a thrown value that is no `Error`, by its string.
pub data Exception : Type 0 where
  http : HttpKind → (status_code : ℕ) → (message code : Text) → Exception
  http_message : HttpKind → (message : Text) → Exception
  error : (message : Text) → Exception
  known_request : (code message : Text) → Exception
  value : (shown : Text) → Exception

-- `error instanceof Error ? error.message : String(error)`.
abbrev pub message_of : Exception → Text
message_of (http k n m c) = m
message_of (http_message k m) = m
message_of (error m) = m
message_of (known_request c m) = m
message_of (value s) = s

-- `error instanceof NotFoundException`.
abbrev pub is_not_found : Exception → Bool
is_not_found (http not_found n m c) = true
is_not_found (http_message not_found m) = true
is_not_found _ = false

-- common/prisma.util.ts: the unique-constraint violation of the database client.
unfoldable pub is_prisma_unique_violation : Exception → Bool
is_prisma_unique_violation (http k n m c) = c == text "P2002"
is_prisma_unique_violation (http_message k m) = false
is_prisma_unique_violation (error m) = false
is_prisma_unique_violation (known_request c m) = c == text "P2002"
is_prisma_unique_violation (value s) = false

pub data Result {ℓ} (A : Type ℓ) : Type ℓ where
  ok : A → Result A
  err : Exception → Result A

-- An asynchronous function of the program: it throws or returns, and either way leaves a state.
abbrev pub Action : Type 0 → Type 0 → Type 0
Action S A = S → Result A × S

abbrev pub continue : {S A B : Type 0} → (A → Action S B) → Result A × S → Result B × S
continue f (ok a, s) = f a s
continue f (err e, s) = (err e, s)

infixl 5 ◌>>=◌ ◌>>◌
abbrev pub ◌>>=◌ : {S A B : Type 0} → Action S A → (A → Action S B) → Action S B
◌>>=◌ m f s = continue f (m s)

abbrev pub ◌>>◌ : {S B : Type 0} → Action S (Unit {0}) → Action S B → Action S B
◌>>◌ m k s = continue (λ _. k) (m s)

abbrev pub return : {S A : Type 0} → A → Action S A
return a s = (ok a, s)

abbrev pub throw : {S A : Type 0} → Exception → Action S A
throw e s = (err e, s)

abbrev pub get : {S : Type 0} → Action S S
get s = (ok s, s)

-- `try { m } catch (error) { handler(error) }`; what `m` has done to the state stays.
abbrev pub rescue : {S A : Type 0} → (Exception → Action S A) → Result A × S → Result A × S
rescue handler (ok a, s) = (ok a, s)
rescue handler (err e, s) = handler e s

abbrev pub catch : {S A : Type 0} → Action S A → (Exception → Action S A) → Action S A
catch m handler s = rescue handler (m s)

-- A value that is at hand, or an exception.
abbrev pub result : {S A : Type 0} → Result A → Action S A
result r s = (r, s)

-- `if (!found) throw e`.
abbrev pub or_throw : {S A : Type 0} → Exception → Option A → Action S A
or_throw e none s = (err e, s)
or_throw e (some a) s = (ok a, s)

abbrev pub require : {S : Type 0} → Bool → Exception → Action S (Unit {0})
require true e s = (ok tt, s)
require false e s = (err e, s)

-- packages/shared/src/index.ts
pub record ApiSuccessResponse (T : Type 0) : Type 0 where
  pub payload : T

pub record Meta : Type 0 where
  pub page : ℕ
  pub page_size : ℕ
  pub total : ℕ

pub record ApiPaginatedResponse (T : Type 0) : Type 0 where
  pub payload : List T
  pub meta : Meta

abbrev pub api_data : {T : Type 0} → T → ApiSuccessResponse T
api_data d = record { payload = d }

abbrev pub api_paginated : {T : Type 0} → List T → Meta → ApiPaginatedResponse T
api_paginated d m = record { payload = d; meta = m }

-- `options.field ?? fallback`.
abbrev pub or_default {ℓ} : {A : Type ℓ} → Option A → A → A
or_default none d = d
or_default (some a) d = a
