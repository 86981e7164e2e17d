-- ===== src/Telegram/Sidecar/Requests/Tests.antt =====
-- Calls of the Telegram worker at concrete input.
use social_monitor.Prelude.{◌≡◌, text, Bool, [], ◌∷◌, ◌++◌, none}
use social_monitor.Core.{ok}
use social_monitor.Fixtures.{scripted, io_of}
use social_monitor.Telegram.Sidecar.{request, worker_request, is_healthy}
use social_monitor.Telegram.Sidecar.Requests.{
  Answered, request-Answered, is_healthy_total, health_request,
}
use social_monitor.Telegram.Samples.{manager}

request-Answered_run :
    Answered (request scripted manager (text "GET") (text "/status") none 10 (io_of [])).0
    × ((request scripted manager (text "GET") (text "/status") none 10 (io_of [])).1.requests
        ≡ [] ++ (worker_request manager (text "GET") (text "/status") none 10 ∷ []))
request-Answered_run =
    request-Answered scripted manager (text "GET") (text "/status") none 10 (io_of [])

is_healthy_total_run :
    (b : Bool) × ((is_healthy scripted manager (io_of [])).0 ≡ ok b)
    × ((is_healthy scripted manager (io_of [])).1.requests
        ≡ [] ++ (health_request scripted manager ∷ []))
is_healthy_total_run = is_healthy_total scripted manager (io_of [])
