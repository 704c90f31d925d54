-- ===== src/Api/Tokens.antt =====
-- backend/app/api/routes/auth.py: `refresh_access_token`, `logout` and `logout_all`. The readings of
-- the clock and the new UUIDs are arguments.
pub mod Replay
pub mod Logout
use opsflow.Prelude.{ℕ, true, false, String, Option, none, some, List, [], ◌∷◌, Result, ok, err}
use opsflow.Prelude.Int.{pos}
use opsflow.Dict.{Dict}
use opsflow.Auth.Action.{
  Db, AuthError, invalid_credentials, inactive_user, reauthentication_failed,
  password_change_refused, invalid_csrf_token, refresh_token_reuse,
}
use opsflow.Auth.Users.{User}
use opsflow.Auth.Tokens.{Crypto}
use opsflow.Auth.Service.{
  Lifetimes, RefreshRotationResult, rotate_refresh_token_with_csrf,
  revoke_refresh_session_with_csrf, revoke_all_sessions_for_user,
}
use opsflow.Api.{
  refresh_credentials_invalid, csrf_validation_failed, no_body, access_token, detail, Response,
  respond, refused, unauthenticated, Ending, returns, raises_http, raises_error, Handler,
}
use opsflow.Api.Cookies.{
  CookieSettings, CookieChange, get_refresh_cookie, get_csrf_cookie, set_refresh_cookie,
  clear_auth_cookies,
}
use opsflow.Api.Events.{
  success, failure, blocked, info, warning, number_value, SecurityEvent, text_value, boolean_value,
}

-- What the routes read of a request: its cookies, and the header with the CSRF token.
pub record Credentials : Type 0 where
  pub cookies : Dict String
  pub csrf_header : Option String

pub record RefreshDraw : Type 0 where
  pub now : ℕ
  pub replacement : ℕ
  pub access_id : ℕ
  pub cookie_time : ℕ

abbrev pub refresh_failed : String → SecurityEvent
refresh_failed reason = record {
  event = "auth.refresh.failed";
  outcome = failure;
  level = warning;
  user_id = none;
  account_identifier = none;
  reason = some reason;
  details = [];
}

abbrev pub csrf_failed : String → SecurityEvent
csrf_failed request = record {
  event = "csrf.validation.failed";
  outcome = blocked;
  level = warning;
  user_id = none;
  account_identifier = none;
  reason = some request;
  details = [];
}

abbrev pub reuse_detected : String → ℕ → SecurityEvent
reuse_detected event user_id = record {
  event = event;
  outcome = blocked;
  level = warning;
  user_id = some user_id;
  account_identifier = none;
  reason = some "refresh_token_reuse";
  details = [];
}

abbrev pub succeeded : String → ℕ → List (String × opsflow.Api.Events.DetailValue) → SecurityEvent
succeeded event user_id details = record {
  event = event;
  outcome = success;
  level = info;
  user_id = some user_id;
  account_identifier = none;
  reason = none;
  details = details;
}

-- `_refresh_credentials_exception` and `_csrf_exception`
unfoldable pub refresh_credentials_exception : Response
refresh_credentials_exception = unauthenticated refresh_credentials_invalid

unfoldable pub csrf_exception : Response
csrf_exception = refused 403 csrf_validation_failed

module _ (settings : CookieSettings) where
  -- The `except` clauses of `refresh_access_token`.
  unfoldable pub on_refresh_error : AuthError → Ending × List SecurityEvent
  unfolding refresh_credentials_exception csrf_exception clear_auth_cookies
  on_refresh_error invalid_csrf_token =
      (raises_http csrf_exception, csrf_failed "refresh_request" ∷ [])
  on_refresh_error (refresh_token_reuse user_id session_id) = (
    returns (record (unauthenticated refresh_credentials_invalid) {
      cookies = clear_auth_cookies settings;
    }),
    reuse_detected "auth.refresh.reuse_detected" user_id ∷ [],
  )
  on_refresh_error _ =
      (raises_http refresh_credentials_exception, refresh_failed "invalid_refresh_credential" ∷ [])

  -- The `except` clauses of `logout`.
  unfoldable pub on_logout_error : AuthError → Ending × List SecurityEvent
  unfolding csrf_exception clear_auth_cookies
  on_logout_error invalid_csrf_token =
      (raises_http csrf_exception, csrf_failed "logout_request" ∷ [])
  on_logout_error (refresh_token_reuse user_id session_id) = (
    returns (respond 204 no_body (clear_auth_cookies settings)),
    reuse_detected "auth.logout.reuse_detected" user_id ∷ [],
  )
  on_logout_error _ = (returns (respond 204 no_body (clear_auth_cookies settings)), [])

  module _ (c : Crypto) where
    -- What follows a rotation. An error of `set_refresh_cookie` leaves the handler.
    unfoldable pub after_rotation :
        ℕ → Result AuthError RefreshRotationResult → Ending × List SecurityEvent
    unfolding on_refresh_error set_refresh_cookie
    after_rotation cookie_time (ok rotation) =
        elim (set_refresh_cookie settings c cookie_time rotation.refresh_token) [
          | none ↦ (raises_error, [])
          | some cookie ↦ (
            returns (respond 200 (access_token rotation.access_token) (cookie ∷ [])),
            succeeded "auth.refresh.succeeded" (rotation.user.id)
                  (("refresh_rotated", boolean_value true) ∷ [])
                ∷ [],
          )
        ]
    after_rotation cookie_time (err e) = on_refresh_error e

    unfoldable pub refresh_access_token : Lifetimes → RefreshDraw → Credentials → Handler Db
    unfolding after_rotation refresh_credentials_exception
    refresh_access_token lifetimes draw request db =
        elim (get_refresh_cookie settings request.cookies) [
          | none ↦ (
            raises_http refresh_credentials_exception,
            refresh_failed "missing_refresh_cookie" ∷ [],
            db,
          )
          | some token ↦
              let (result, db') =
                rotate_refresh_token_with_csrf c lifetimes draw.now draw.replacement draw.access_id
                  token (get_csrf_cookie settings request.cookies) request.csrf_header db in
              let (ending, events) = after_rotation draw.cookie_time result in (ending, events, db')
        ]

    unfoldable pub after_logout : Result AuthError (User × ℕ) → Ending × List SecurityEvent
    unfolding on_logout_error clear_auth_cookies
    after_logout (ok (user, session_id)) = (
      returns (respond 204 no_body (clear_auth_cookies settings)),
      succeeded "auth.logout.succeeded" user.id (("session_revoked", boolean_value true) ∷ []) ∷ [],
    )
    after_logout (err e) = on_logout_error e

    unfoldable pub logout : ℕ → Credentials → Handler Db
    unfolding after_logout clear_auth_cookies
    logout now request db = elim (get_refresh_cookie settings request.cookies) [
      | none ↦ (returns (respond 204 no_body (clear_auth_cookies settings)), [], db)
      | some token ↦
          let (result, db') =
            revoke_refresh_session_with_csrf c now token (get_csrf_cookie settings request.cookies)
              request.csrf_header db in
          let (ending, events) = after_logout result in (ending, events, db')
    ]

  -- The user is the one that `get_current_user` has resolved; an inactive one is an error that leaves
  -- the handler.
  unfoldable pub logout_all : ℕ → User → Handler Db
  unfolding revoke_all_sessions_for_user clear_auth_cookies
  logout_all now current_user db =
      let (result, db') = revoke_all_sessions_for_user now current_user db in
      elim result [
        | ok revoked_count ↦ (
          returns (respond 204 no_body (clear_auth_cookies settings)),
          succeeded "auth.logout_all.succeeded" current_user.id
                (("sessions_revoked", number_value (pos revoked_count)) ∷ [])
              ∷ [],
          db',
        )
        | err _ ↦ (raises_error, [], db')
      ]
