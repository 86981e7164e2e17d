-- ===== src/Fixtures.antt =====
-- Concrete surroundings for the tests: a network that answers from a script, queues that accept
-- every job, and a database client all of whose operations fail, of which a test gives the
-- operations that it needs.
use social_monitor.Prelude.{ℕ, ◌+◌, text, List, [], ◌∷◌, none}
use social_monitor.Core.{Exception, error, ok, throw}
use social_monitor.Net.{Outcome, rejected, response, Network, Io, Members}
use social_monitor.Database.{Prisma}
use social_monitor.World.{Bull, World}

-- The answers to come; each call takes ten milliseconds.
pub record Script : Type 0 where
  pub answers : List Outcome
  pub clock : ℕ

abbrev pub next_answer : List Outcome → ℕ → Outcome × Script
next_answer [] c = (rejected (error (text "offline")), record { answers = []; clock = c + 10 })
next_answer (a ∷ rest) c = (a, record { answers = rest; clock = c + 10 })

abbrev pub scripted : Network Script
scripted = record { fetch = λ r s. next_answer s.answers s.clock; now = λ s. s.clock }

abbrev pub answer : ℕ → Members → Outcome
answer status members =
    response (record { status = status; body_text = text "body"; json = ok members; arrays = [] })

abbrev pub io_of : List Outcome → Io Script
io_of answers = record {
  net = record { answers = answers; clock = 1000000 };
  requests = [];
  cached_token = none;
}

abbrev pub accepting : Bull (Unit {0})
accepting = record { add = λ job r. (ok tt, r) }

abbrev pub refused : Exception
refused = error (text "not connected")

abbrev pub offline : (D : Type 0) → Prisma D
offline D = record {
  target_find_many = λ args. throw refused;
  target_count = λ args. throw refused;
  target_find_unique = λ key. throw refused;
  target_find_first = λ key. throw refused;
  target_create = λ values. throw refused;
  target_update = λ id values. throw refused;
  target_delete = λ id. throw refused;
  message_find_many = λ args. throw refused;
  message_count = λ args. throw refused;
  message_find_unique = λ key. throw refused;
  message_create = λ values. throw refused;
  channel_find_many = λ args. throw refused;
  channel_find_unique = λ id. throw refused;
  channel_create = λ values. throw refused;
  channel_update = λ id values. throw refused;
  channel_delete = λ id. throw refused;
  task_find_many = λ args. throw refused;
  task_count = λ args. throw refused;
  task_find_unique = λ id. throw refused;
  task_update = λ id values. throw refused;
  task_create_many = λ values. throw refused;
  account_find_first = λ phone. throw refused;
  account_find_many = λ connected. throw refused;
  account_create = λ values. throw refused;
  account_update = λ id values. throw refused;
  account_delete = λ id. throw refused;
  query_raw = throw refused;
}

abbrev pub world_of : {D : Type 0} → D → Io Script → World D Script (Unit {0})
world_of d io = record {
  db = d;
  io = io;
  redis = tt;
  queues = [];
  jobs = [];
  events = [];
  listening = [];
}
