-- ===== src/Web/SignIn.antt =====
-- apps/web/app/login/page.tsx: the page that logs the administrator in.
use social_monitor.Prelude.{Text, text, Bool, true, false, Option, none, some}
use social_monitor.Core.{
  Exception, http, http_message, error, known_request, value, Result, ok, err,
}
use social_monitor.Auth.{LoginResult}
use social_monitor.Web.Client.{Browser, set_token}

pub record SignInPage : Type 0 where
  pub username : Text
  pub password : Text
  pub error : Option Text
  pub loading : Bool

-- `err instanceof Error ? err.message : "登录失败"`
abbrev pub failure_message : Exception → Text
failure_message (http k n m c) = m
failure_message (http_message k m) = m
failure_message (error m) = m
failure_message (known_request c m) = m
failure_message (value s) = text "登录失败"

unfoldable pub handle_submit : SignInPage → SignInPage
handle_submit s = record s { error = none; loading = true }

-- The token is stored, and the router goes to the dashboard.
unfoldable pub signed_in :
    {N : Type 0} → Result LoginResult → SignInPage × Browser N → SignInPage × Browser N
signed_in (ok r) (s, b) =
    (record s { loading = false }, record (set_token r.token b) { pathname = text "/dashboard" })
signed_in (err e) (s, b) = (record s { error = some (failure_message e); loading = false }, b)
