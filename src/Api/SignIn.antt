-- ===== src/Api/SignIn.antt =====
-- backend/app/api/routes/auth.py: the responses, cookies and events of `login_for_access_token`, whose
-- outcomes are in Auth/Login.
use opsflow.Prelude.{ℕ, String, Option, none, some, List, [], ◌∷◌}
use opsflow.Auth.Tokens.{Crypto}
use opsflow.Auth.Service.{Lifetimes}
use opsflow.Auth.Login.{
  LoginState, LoginOutcome, throttled, rejected, raised, logged_in, LoginDraw,
  login_for_access_token,
}
use opsflow.Throttle.Keys.{TextRuntime}
use opsflow.Throttle.Login.{ThrottleReason, ip, account, begin_attempt}
use opsflow.Api.{
  login_credentials_invalid, login_throttled, access_token, respond, refused, unauthenticated,
  Ending, returns, raises_http, raises_error, Answered, answer,
}
use opsflow.Api.Cookies.{CookieSettings, set_refresh_cookie, set_csrf_cookie}
use opsflow.Api.Events.{failure, blocked, warning, SecurityOutcome, SecurityEvent}
use opsflow.Api.Tokens.{succeeded}

abbrev pub login_event : String → SecurityOutcome → String → String → SecurityEvent
login_event event outcome username reason = record {
  event = event;
  outcome = outcome;
  level = warning;
  user_id = none;
  account_identifier = some username;
  reason = some reason;
  details = [];
}

-- `throttle_decision.blocked_by or "unknown"`
abbrev pub blocked_reason : Option ThrottleReason → String
blocked_reason none = "unknown"
blocked_reason (some ip) = "ip"
blocked_reason (some account) = "account"

module _ (settings : CookieSettings) (c : Crypto) (cookie_time : ℕ) where
  -- How the handler ends; an error of `set_refresh_cookie` leaves it.
  unfoldable pub login_ending :
      Option ThrottleReason → String → LoginOutcome → Ending × List SecurityEvent
  unfolding set_refresh_cookie set_csrf_cookie
  login_ending blocked_by username throttled = (
    raises_http (refused 429 login_throttled),
    login_event "auth.login.throttled" blocked username (blocked_reason blocked_by) ∷ [],
  )
  login_ending blocked_by username rejected = (
    raises_http (unauthenticated login_credentials_invalid),
    login_event "auth.login.failed" failure username "invalid_credentials" ∷ [],
  )
  login_ending blocked_by username raised = (raises_error, [])
  login_ending blocked_by username (logged_in issued) =
      elim (set_refresh_cookie settings c cookie_time issued.refresh_token) [
        | none ↦ (raises_error, [])
        | some cookie ↦ (
          returns (
              respond 200 (access_token issued.access_token)
                (cookie ∷ set_csrf_cookie settings issued.csrf_token ∷ [])),
          succeeded "auth.login.succeeded" issued.user.id [] ∷ [],
        )
      ]

  -- The whole request: the throttle keeps what it has recorded, and the rows are committed or not.
  unfoldable pub log_in :
      TextRuntime
      → Lifetimes
      → LoginDraw
      → (client_address username password : String) → LoginState
      → Answered LoginState
  unfolding login_for_access_token login_ending answer
  log_in text lifetimes draw client_address username password s =
      let blocked_by =
        (begin_attempt text draw.attempt_time client_address username s.throttle).0.blocked_by in
      let (outcome, s') =
        login_for_access_token text c lifetimes draw client_address username password s in
      let (ending, events) = login_ending blocked_by username outcome in
      let answered = answer (λ db. (ending, events, s'.db)) s.db in
      record {
        response = answered.response;
        events = answered.events;
        state = record { throttle = s'.throttle; db = answered.state };
      }
