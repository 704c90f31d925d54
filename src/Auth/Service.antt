-- ===== src/Auth/Service.antt =====
-- backend/app/services/authentication_service.py: the methods on refresh sessions and passwords.
-- The time, the new UUIDs and the settings are arguments.
use text.Mathlib.Text.{◌==◌ as str_eq}
use opsflow.Prelude.{ℕ, ◌+◌, not, String, Option, none, some, ok, leb, ◌==◌, if◌then◌else◌}
use opsflow.Auth.Action.{
  invalid_credentials, inactive_user, invalid_csrf_token, refresh_token_reuse, Action, ◌>>=◌, ◌>>◌,
  pure, raise, or_raise, gets, raise_if, update_sessions,
}
use opsflow.Auth.Sessions
use opsflow.Auth.Sessions.{
  AuthSession, is_none, create, update_current_token, revoke, revoke_all_for_user,
}
use opsflow.Auth.Users
use opsflow.Auth.Users.{
  User, UserAuthRecord, get_auth_record_by_email, update_password_hash_if_current,
}
use opsflow.Auth.Tokens.{
  Crypto, RefreshTokenClaims, decode_refresh_token, create_refresh_token, create_access_token,
  create_csrf_token, validate_csrf_token,
}

-- `settings.refresh_token_expire_days` and `settings.access_token_expire_minutes`, in microseconds.
pub record Lifetimes : Type 0 where
  pub refresh_token : ℕ
  pub access_token : ℕ

pub record AuthenticationResult : Type 0 where
  pub access_token : String
  pub refresh_token : String
  pub csrf_token : String
  pub user : User
  pub session_id : ℕ
  pub refresh_token_id : ℕ

pub record RefreshRotationResult : Type 0 where
  pub access_token : String
  pub refresh_token : String
  pub user : User
  pub session_id : ℕ
  pub previous_refresh_token_id : ℕ
  pub refresh_token_id : ℕ

unfoldable pub require_active_user : User → Action Unit
require_active_user user = raise_if (not user.is_active) inactive_user

unfoldable pub resolve_active_user : ℕ → Action User
unfolding require_active_user
resolve_active_user user_id = do
  found ← gets (λ db. Users.get_by_id user_id db.users)
  user ← or_raise found invalid_credentials
  require_active_user user
  pure user

-- `_require_usable_session`
unfoldable pub require_usable_session : AuthSession → RefreshTokenClaims → ℕ → Action Unit
require_usable_session session claims now = do
  raise_if (not (is_none session.revoked_at)) invalid_credentials
  raise_if (leb session.expires_at now) invalid_credentials
  raise_if (not (session.user_id == claims.user_id)) invalid_credentials

-- The session of a refresh token, locked and checked.
unfoldable pub locked_session : ℕ → RefreshTokenClaims → Action (RefreshTokenClaims × AuthSession)
unfolding require_usable_session
locked_session now claims = do
  found ← gets (λ db. Sessions.get_by_id claims.session_id db.sessions)
  session ← or_raise found invalid_credentials
  require_usable_session session claims now
  pure (claims, session)

module _ (c : Crypto) where
  -- `_validate_csrf`
  unfoldable pub validate_csrf : ℕ → Option String → Option String → Action Unit
  validate_csrf session_id (some cookie) (some header) = do
    raise_if (not (str_eq cookie header)) invalid_csrf_token
    raise_if (not (validate_csrf_token c session_id cookie)) invalid_csrf_token
  validate_csrf session_id none header = raise invalid_csrf_token
  validate_csrf session_id (some _) none = raise invalid_csrf_token

  unfoldable pub decode_refresh_token_with_csrf :
      ℕ → String → Option String → Option String → Action RefreshTokenClaims
  unfolding validate_csrf
  decode_refresh_token_with_csrf now token cookie header = do
    claims ← or_raise (decode_refresh_token c now token) invalid_credentials
    validate_csrf claims.session_id cookie header
    pure claims

  -- The common start of a rotation and of a logout: the claims and the locked session.
  unfoldable pub usable_session :
      ℕ → String → Option String → Option String → Action (RefreshTokenClaims × AuthSession)
  unfolding decode_refresh_token_with_csrf locked_session
  usable_session now token cookie header = do
    claims ← decode_refresh_token_with_csrf now token cookie header
    locked_session now claims

  -- The reuse check: a refresh token that is not the current one revokes its session.
  unfoldable pub require_current_token : AuthSession → RefreshTokenClaims → ℕ → Action Unit
  require_current_token session claims now =
      if not (session.current_jti == claims.token_id)
      then (do
        update_sessions (revoke session.id now "refresh_token_reuse")
        raise (refresh_token_reuse session.user_id session.id))
      else pure tt

  unfoldable pub issue_authentication_result :
      Lifetimes
      → ℕ
      → (session_id token_id access_id : ℕ) → (nonce : String) → User
      → Action AuthenticationResult
  unfolding require_active_user
  issue_authentication_result lifetimes now session_id token_id access_id nonce user = do
    require_active_user user
    let expires_at = now + lifetimes.refresh_token
    update_sessions (
        create (record {
          id = session_id;
          user_id = user.id;
          current_jti = token_id;
          created_at = now;
          last_used_at = now;
          expires_at = expires_at;
          revoked_at = none;
          revocation_reason = none;
        }))
    pure (record {
      access_token = create_access_token c now lifetimes.access_token access_id user.id;
      refresh_token = create_refresh_token c now user.id session_id token_id expires_at;
      csrf_token = create_csrf_token c nonce session_id;
      user = user;
      session_id = session_id;
      refresh_token_id = token_id;
    })

  -- `replacement` is the `uuid4()` of the next refresh token.
  unfoldable pub rotate_session :
      Lifetimes
      → ℕ
      → (replacement access_id : ℕ) → RefreshTokenClaims × AuthSession
      → Action RefreshRotationResult
  unfolding require_current_token resolve_active_user
  rotate_session lifetimes now replacement access_id (claims, session) = do
    require_current_token session claims now
    user ← resolve_active_user claims.user_id
    update_sessions (update_current_token session.id replacement now)
    pure (record {
      access_token = create_access_token c now lifetimes.access_token access_id user.id;
      refresh_token = create_refresh_token c now user.id session.id replacement session.expires_at;
      user = user;
      session_id = session.id;
      previous_refresh_token_id = claims.token_id;
      refresh_token_id = replacement;
    })

  unfoldable pub rotate_refresh_token_with_csrf :
      Lifetimes
      → ℕ
      → (replacement access_id : ℕ) → String
      → Option String
      → Option String
      → Action RefreshRotationResult
  unfolding usable_session rotate_session
  rotate_refresh_token_with_csrf lifetimes now replacement access_id token cookie header =
      usable_session now token cookie header >>= rotate_session lifetimes now replacement access_id

  unfoldable pub log_out_session : ℕ → RefreshTokenClaims × AuthSession → Action (User × ℕ)
  unfolding require_current_token resolve_active_user
  log_out_session now (claims, session) = do
    require_current_token session claims now
    user ← resolve_active_user claims.user_id
    update_sessions (revoke session.id now "logout")
    pure (user, session.id)

  unfoldable pub revoke_refresh_session_with_csrf :
      ℕ → String → Option String → Option String → Action (User × ℕ)
  unfolding usable_session log_out_session
  revoke_refresh_session_with_csrf now token cookie header =
      usable_session now token cookie header >>= log_out_session now

-- `revoke_all_for_user` as a statement that returns its row count
unfoldable pub revoke_all : ℕ → ℕ → String → Action ℕ
revoke_all user_id now reason db =
    let (count, sessions) = revoke_all_for_user user_id now reason db.sessions in
    (ok count, record db { sessions = sessions })

unfoldable pub revoke_all_sessions_for_user : ℕ → User → Action ℕ
unfolding require_active_user revoke_all
revoke_all_sessions_for_user now user = do
  require_active_user user
  revoke_all user.id now "logout_all"
