-- ===== src/Qq/Client/Tests.antt =====
-- Runs of qq/qq-client.service.ts.
use social_monitor.Prelude.{◌≡◌, refl, text, ◌==◌, [], ◌∷◌, arith}
use social_monitor.Core.{ok, err}
use social_monitor.Net.{Io, str, num, Outcome}
use social_monitor.Fixtures.{Script, scripted, io_of, answer}
use social_monitor.Qq.Client.{
  QqClient, not_configured, token_request, get_access_token, token_network_error,
}
use social_monitor.Qq.Client.Token.{
  unconfigured_throws, get_access_token_again, get_access_token_requests, get_access_token_failure,
}

abbrev bot : QqClient
bot = record {
  app_id = text "A";
  client_secret = text "S";
  token_url = text "u";
  api_base = text "b";
}

abbrev blank : QqClient
blank = record bot { client_secret = [] }

abbrev token_answer : Outcome
token_answer =
    answer 200 ((text "access_token", str (text "X")) ∷ (text "expires_in", num 7200) ∷ [])

abbrev cold : Io Script
cold = io_of (token_answer ∷ [])

abbrev warm : Io Script
warm = (get_access_token scripted bot cold).1

unconfigured_throws_run : (get_access_token scripted blank cold ≡ (err not_configured, cold))
unconfigured_throws_run = (unconfigured_throws scripted blank cold (text "g") (text "hi") refl).0

get_access_token_again_run : get_access_token scripted bot warm ≡ (ok (text "X"), warm)
unfolding get_access_token ◌==◌
get_access_token_again_run =
    get_access_token_again scripted bot cold warm warm (text "X") refl refl (omega arith)

get_access_token_requests_run : warm.requests ≡ token_request bot ∷ []
get_access_token_requests_run = get_access_token_requests scripted bot cold refl

get_access_token_failure_run :
    (get_access_token scripted bot (io_of [])).1.cached_token ≡ (io_of []).cached_token
unfolding get_access_token
get_access_token_failure_run =
    get_access_token_failure scripted bot (io_of []) _ token_network_error refl
