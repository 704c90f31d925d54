-- ===== src/Api/Passwords.antt =====
-- backend/app/api/routes/auth.py: `reauthenticate_current_user` and `change_current_user_password`.
pub mod Proof
use opsflow.Prelude.{
  ℕ, ◌*◌, true, false, String, Option, none, some, List, [], ◌∷◌, Result, ok, err,
}
use opsflow.Prelude.Int.{pos}
use opsflow.Auth.Action
use opsflow.Auth.Action.{Db, AuthError, password_change_refused}
use opsflow.Auth.Users.{User}
use opsflow.Auth.Tokens.{Crypto, Payload}
use opsflow.Auth.Resolve.{reauthenticate}
use opsflow.Auth.Password.{PasswordChangeResult, change_password}
use opsflow.Api
use opsflow.Api.{
  reauthentication_required, password_change_rejected, no_body, reauth_token, Response, respond,
  refused, Ending, returns, raises_http, raises_error, Handler,
}
use opsflow.Api.Cookies.{CookieSettings, clear_auth_cookies}
use opsflow.Api.Events.{success, failure, blocked, info, warning, number_value, SecurityEvent}

-- The events of these routes on a user.
abbrev pub user_event :
    String
    → opsflow.Api.Events.SecurityOutcome
    → opsflow.Api.Events.Level
    → ℕ
    → Option String
    → SecurityEvent
user_event event outcome level user_id reason = record {
  event = event;
  outcome = outcome;
  level = level;
  user_id = some user_id;
  account_identifier = none;
  reason = reason;
  details = [];
}

-- `_reauthentication_exception`
unfoldable pub reauthentication_exception : Response
reauthentication_exception = refused 403 reauthentication_required

-- The lifetime of a proof is a setting in seconds; its token is created with microseconds.
module _ (c : Crypto) (encode_reauth : Payload → String) (reauth_seconds : ℕ) where
  unfoldable pub reauthenticate_current_user :
      (now token_id : ℕ) → (password : String) → User → Handler Db
  reauthenticate_current_user now token_id password current_user db =
      let (result, db') =
        reauthenticate c encode_reauth now (reauth_seconds * 1000000) token_id current_user password
          db in
      elim result [
        | ok token ↦ (
          returns (respond 200 (reauth_token token reauth_seconds) []),
          user_event "auth.reauthentication.succeeded" success info current_user.id none ∷ [],
          db',
        )
        | err Action.reauthentication_failed ↦ (
          raises_http (refused 401 Api.reauthentication_failed),
          user_event "auth.reauthentication.failed" failure warning current_user.id
                (some "invalid_current_password")
              ∷ [],
          db',
        )
        | err _ ↦ (raises_error, [], db')
      ]

module _ (settings : CookieSettings) where
  unfoldable pub after_password_change :
      User → Result AuthError PasswordChangeResult → Ending × List SecurityEvent
  unfolding reauthentication_exception clear_auth_cookies
  after_password_change user (ok result) = (
    returns (respond 204 no_body (clear_auth_cookies settings)),
    (record (user_event "auth.password_change.succeeded" success warning result.user_id none) {
      details = ("sessions_revoked", number_value (pos result.revoked_sessions)) ∷ [];
    })
        ∷ [],
  )
  after_password_change user (err Action.reauthentication_failed) = (
    raises_http reauthentication_exception,
    user_event "auth.password_change.blocked" blocked warning user.id
          (some "invalid_or_stale_reauthentication")
        ∷ [],
  )
  after_password_change user (err password_change_refused) = (
    raises_http (refused 400 password_change_rejected),
    user_event "auth.password_change.failed" failure warning user.id
          (some "password_policy_rejected")
        ∷ [],
  )
  after_password_change user (err _) = (raises_error, [])

  unfoldable pub change_current_user_password :
      Crypto → ℕ → (reauth_token new_password replacement_hash : String) → User → Handler Db
  unfolding after_password_change
  change_current_user_password c now token new_password replacement_hash current_user db =
      let (result, db') =
        change_password c now current_user token new_password replacement_hash db in
      let (ending, events) = after_password_change current_user result in (ending, events, db')
