-- ===== src/Api.antt =====
-- The HTTP interface of the Core Backend, backend/app/api: its responses, error codes
-- (core/auth_error_codes.py) and transactions (db/session.py, main.py). The texts of the messages, each
-- fixed by the status and the code, are left out.
pub mod Cookies
pub mod Events
pub mod Tokens
pub mod Passwords
pub mod Resets
pub mod Access
pub mod SignIn
pub mod Registration
use opsflow.Prelude.{ℕ, Bool, true, false, String, Option, none, some, List, [], ◌∷◌, ◌++◌}
use opsflow.Prelude.Int.{ℤ}
use opsflow.Api.Cookies.{CookieChange}
use opsflow.Api.Events.{SecurityEvent}
use opsflow.Auth.Users.{User}

pub data AuthErrorCode : Type 0 where
  access_credentials_invalid login_credentials_invalid login_throttled refresh_credentials_invalid
        csrf_validation_failed reauthentication_failed reauthentication_required
        password_change_rejected password_reset_throttled password_reset_credential_invalid
        password_reset_password_rejected :
      AuthErrorCode

-- What a body holds besides its message.
pub data Body : Type 0 where
  no_body detail accepted_message : Body
  access_token : String → Body
  reauth_token : String → ℕ → Body
  current : User → Body

-- `error_code`, `www_authenticate` (`Bearer`) and `retry_after` are headers.
pub record Response : Type 0 where
  pub status : ℕ
  pub error_code : Option AuthErrorCode
  pub www_authenticate : Bool
  pub retry_after : Option ℤ
  pub cookies : List CookieChange
  pub body : Body

abbrev pub respond : ℕ → Body → List CookieChange → Response
respond status body cookies = record {
  status = status;
  error_code = none;
  www_authenticate = false;
  retry_after = none;
  cookies = cookies;
  body = body;
}

-- An `HTTPException` with `auth_error_headers(code)`.
abbrev pub refused : ℕ → AuthErrorCode → Response
refused status code = record (respond status detail []) { error_code = some code }

-- The same with `WWW-Authenticate: Bearer`.
abbrev pub unauthenticated : AuthErrorCode → Response
unauthenticated code = record (refused 401 code) { www_authenticate = true }

-- How a handler ends: it returns a response, raises an `HTTPException`, raises
-- `PasswordResetDeliveryError`, or raises another error.
pub data Ending : Type 0 where
  returns raises_http : Response → Ending
  raises_delivery_error raises_error : Ending

-- The events that a handler emits, and the rows that it leaves.
abbrev pub Handler : Type 0 → Type 0
Handler S = S → Ending × List SecurityEvent × S

-- A request after its transaction.
pub record Answered (S : Type 0) : Type 0 where
  pub response : Response
  pub events : List SecurityEvent
  pub state : S

-- `password_reset_delivery_error_handler`
unfoldable pub delivery_error_response : Response
delivery_error_response = respond 202 accepted_message []

-- `get_db_session` and the exception handlers: what a handler that returns has written is committed,
-- and an exception rolls it back.
unfoldable pub answer : {S : Type 0} → Handler S → S → Answered S
unfolding delivery_error_response
answer handler s =
    let (ending, events, s') = handler s in
    elim ending [
      | returns response ↦ record { response = response; events = events; state = s' }
      | raises_http response ↦ record { response = response; events = events; state = s }
      | raises_delivery_error ↦ record {
        response = delivery_error_response;
        events = events;
        state = s;
      }
      | raises_error ↦ record { response = respond 500 detail []; events = events; state = s }
    ]
