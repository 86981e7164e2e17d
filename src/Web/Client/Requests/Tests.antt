-- ===== src/Web/Client/Requests/Tests.antt =====
-- A request with a token that has expired.
use social_monitor.Prelude.{◌≡◌, text, [], ◌∷◌, ◌++◌, none, some, if◌then◌else◌}
use social_monitor.Fixtures.{Script, scripted, io_of, answer}
use social_monitor.Web.Client.{Site, Browser, Init, login_path, request}
use social_monitor.Web.Client.Requests.{call_of, outcome_result, is_unauthorized, request_lem}

abbrev site : Site
site = record { base_path = text "/web3/monitor"; api_base_url = text "/web3/monitor/api" }

abbrev browser : Browser Script
browser = record {
  io = io_of (answer 401 [] ∷ []);
  token = some (text "t");
  pathname = text "/web3/monitor/dashboard";
}

abbrev get_monitors : Init
get_monitors = record { method = text "GET"; body = none }

request_lem_example :
    let sent = call_of scripted site get_monitors (text "/monitors") browser.token in
    let o = (scripted.fetch sent browser.io.net).0 in
    let t = request scripted site get_monitors (text "/monitors") browser in
    (t.0 ≡ outcome_result o)
    × (t.1.token ≡ (if is_unauthorized o then none else browser.token))
    × (t.1.pathname ≡ (if is_unauthorized o then login_path site else browser.pathname))
    × (t.1.io.requests ≡ browser.io.requests ++ (sent ∷ []))
request_lem_example = request_lem scripted site get_monitors (text "/monitors") browser
