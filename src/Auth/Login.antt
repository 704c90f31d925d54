-- ===== src/Auth/Login.antt =====
-- The login: `authenticate` of backend/app/services/authentication_service.py, and the handler
-- `login_for_access_token` of backend/app/api/routes/auth.py with its transaction. `authenticate` also
-- verifies a dummy hash where no user has the address, which has no effect; cookies and events are in
-- Api/SignIn.
pub mod Outcome
use opsflow.Prelude.{
  ℕ, Bool, true, false, not, String, Option, none, some, Result, ok, err, if◌then◌else◌,
}
use opsflow.Auth.Action.{
  Db, AuthError, invalid_credentials, inactive_user, Action, ◌>>=◌, ◌>>◌, pure, or_raise, gets,
  raise_if,
}
use opsflow.Auth.Users.{User, UserAuthRecord, get_auth_record_by_email}
use opsflow.Auth.Tokens.{Crypto}
use opsflow.Auth.Service.{Lifetimes, AuthenticationResult, issue_authentication_result}
use opsflow.Throttle.Keys.{TextRuntime}
use opsflow.Throttle.Login.{LoginThrottle, begin_attempt, record_failure, record_success}

-- `authenticate`
unfoldable pub authenticate : Crypto → (email password : String) → Action User
authenticate c email password = do
  found ← gets (λ db. get_auth_record_by_email (c.lower (c.strip email)) db.users)
  row ← or_raise found invalid_credentials
  raise_if (not (c.verify_password password row.hashed_password)) invalid_credentials
  raise_if (not row.user.is_active) inactive_user
  pure row.user

-- The process's throttle and the database.
pub record LoginState : Type 0 where
  pub throttle : LoginThrottle
  pub db : Db

-- The responses 429, 401 and 200, and an error of the issue, which leaves the handler.
pub data LoginOutcome : Type 0 where
  throttled rejected raised : LoginOutcome
  logged_in : AuthenticationResult → LoginOutcome

-- The readings of the two clocks, and what the issue draws.
pub record LoginDraw : Type 0 where
  pub attempt_time : ℕ
  pub failure_time : ℕ
  pub now : ℕ
  pub session_id : ℕ
  pub token_id : ℕ
  pub access_id : ℕ
  pub nonce : String

module _ (text : TextRuntime) (c : Crypto) (lifetimes : Lifetimes) where
  -- What follows a password that is right: the failures are forgotten, and the session is issued. An
  -- error rolls the database back, and leaves the throttle.
  unfoldable pub issue_login : LoginDraw → String → User → LoginState → LoginOutcome × LoginState
  unfolding issue_authentication_result record_success
  issue_login draw username user s =
      let (result, db) =
        issue_authentication_result c lifetimes draw.now draw.session_id draw.token_id
          draw.access_id draw.nonce user s.db in
      let throttle = record_success text username s.throttle in
      elim result [
        | ok issued ↦ (logged_in issued, record { throttle = throttle; db = db })
        | err _ ↦ (raised, record { throttle = throttle; db = s.db })
      ]

  unfoldable pub login_for_access_token :
      LoginDraw
      → (client_address username password : String) → LoginState
      → LoginOutcome × LoginState
  unfolding authenticate issue_login begin_attempt record_failure
  login_for_access_token draw client_address username password s =
      let (decision, throttle) =
        begin_attempt text draw.attempt_time client_address username s.throttle in
      if not decision.allowed
      then (throttled, record s { throttle = throttle })
      else (elim (authenticate c username password s.db).0 [
        | ok user ↦ issue_login draw username user (record s { throttle = throttle })
        | err _ ↦ (
          rejected,
          record s { throttle = record_failure text draw.failure_time username throttle },
        )
      ])
