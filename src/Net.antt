-- ===== src/Net.antt =====
-- The outside world of the HTTP calls: `fetch`, the clock, and what has been sent. The network and
-- the services behind it are no part of the program, so they are a parameter, `Network`.
use social_monitor.Prelude.{
  ℕ, Text, Bool, ◌&&◌, List, [], ◌∷◌, ◌++◌, Option, none, some, leb, ◌==◌, if◌then◌else◌,
}
use social_monitor.Core.{Exception, Result, ok, err, Action}

-- JSON as the program sends and reads it: objects with scalar members. A member that is an array
-- or an object is the text that `JSON.stringify` gives for it.
pub data Scalar : Type 0 where
  str : Text → Scalar
  num : ℕ → Scalar
  bool : Bool → Scalar
  null : Scalar
  json : Text → Scalar

abbrev pub Members : Type 0
Members = List (Text × Scalar)

abbrev pub member : Text → Members → Option Scalar
member k [] = none
member k ((j, v) ∷ ms) = if j == k then some v else member k ms

-- Members by their declared types; a member of another type counts as absent.
abbrev pub as_text : Option Scalar → Option Text
as_text (some (str s)) = some s
as_text _ = none

abbrev pub as_number : Option Scalar → Option ℕ
as_number (some (num n)) = some n
as_number _ = none

abbrev pub as_bool : Option Scalar → Option Bool
as_bool (some (bool b)) = some b
as_bool _ = none

pub record Request : Type 0 where
  pub method : Text
  pub url : Text
  pub headers : List (Text × Text)
  pub body : Option Members
  pub timeout : ℕ

-- `json` is what `response.json()` gives; on a text that is no JSON it throws. `arrays` are those
-- members of the JSON that hold lists of objects.
pub record Response : Type 0 where
  pub status : ℕ
  pub body_text : Text
  pub json : Result Members
  pub arrays : List (Text × List Members)

abbrev pub is_ok : Response → Bool
is_ok r = leb 200 r.status && leb r.status 299

pub data Outcome : Type 0 where
  rejected : Exception → Outcome
  response : Response → Outcome

-- `N` is all that the answers depend on, time included.
pub record Network (N : Type 0) : Type 0 where
  pub fetch : Request → N → Outcome × N
  pub now : N → ℕ

pub record CachedToken : Type 0 where
  pub token : Text
  pub expires_at : ℕ

-- The state that outgoing calls change: the world, the requests made so far, oldest first, and the
-- token that the QQ client keeps.
pub record Io (N : Type 0) : Type 0 where
  pub net : N
  pub requests : List Request
  pub cached_token : Option CachedToken

abbrev pub settle : {N : Type 0} → Io N → Outcome × N → Result Response × Io N
settle io (rejected e, n) = (err e, record io { net = n })
settle io (response r, n) = (ok r, record io { net = n })

module _ {N : Type 0} (w : Network N) where
  -- `await fetch(request)`: the request is made, and the promise settles.
  unfoldable pub await_fetch : Request → Action (Io N) Response
  await_fetch r io = settle (record io { requests = io.requests ++ (r ∷ []) }) (w.fetch r io.net)

  abbrev pub date_now : Action (Io N) ℕ
  date_now io = (ok (w.now io.net), io)
