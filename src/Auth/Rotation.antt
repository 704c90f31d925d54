-- ===== src/Auth/Rotation.antt =====
-- backend/app/services/authentication_service.py: the runs of a rotation, case by case.
use opsflow.Prelude.{ℕ, ◌≡◌, refl, ◌∙◌, true, false, String, Option, Result, ok, err, ◌==◌}
use opsflow.Auth.Action.{
  Action, Db, AuthError, refresh_token_reuse, >>=-run, ◌>>=◌, ◌>>◌, pure, update_sessions,
}
use opsflow.Auth.Sessions.{AuthSession, update_current_token, revoke}
use opsflow.Auth.Users.{User}
use opsflow.Auth.Tokens.{Crypto, RefreshTokenClaims, create_access_token, create_refresh_token}
use opsflow.Auth.Service.{
  Lifetimes, RefreshRotationResult, require_current_token, usable_session, rotate_session,
  rotate_refresh_token_with_csrf, resolve_active_user,
}
use opsflow.Auth.Refresh.{usable, active_user, usable_session-run, resolve_active_user-run}

abbrev pub rotation_result :
    Crypto → Lifetimes → ℕ → ℕ → ℕ → RefreshTokenClaims → AuthSession → User → RefreshRotationResult
rotation_result c lifetimes now replacement access_id claims session user = record {
  access_token = create_access_token c now lifetimes.access_token access_id user.id;
  refresh_token = create_refresh_token c now user.id session.id replacement session.expires_at;
  user = user;
  session_id = session.id;
  previous_refresh_token_id = claims.token_id;
  refresh_token_id = replacement;
}

module _ (c : Crypto) (lifetimes : Lifetimes) (now replacement access_id : ℕ)
    (claims : RefreshTokenClaims) (session : AuthSession) (db : Db) where
  pub rotate_session-reuse :
      (session.current_jti == claims.token_id) ≡ false
      → rotate_session c lifetimes now replacement access_id (claims, session) db ≡ (
        err (refresh_token_reuse session.user_id session.id),
        record db { sessions = revoke session.id now "refresh_token_reuse" db.sessions },
      )
  unfolding rotate_session require_current_token
  rotate_session-reuse h = rw h refl

  require_current_token-current :
      (session.current_jti == claims.token_id) ≡ true
      → require_current_token c session claims now db ≡ (ok tt, db)
  unfolding require_current_token
  require_current_token-current h = rw h refl

  -- What a rotation does with the user it looks for.
  abbrev pub settled : Result AuthError User → Result AuthError RefreshRotationResult × Db
  settled (err e) = (err e, db)
  settled (ok user) = (
    ok (rotation_result c lifetimes now replacement access_id claims session user),
    record db { sessions = update_current_token session.id replacement now db.sessions },
  )

  abbrev rotated : User → Action RefreshRotationResult
  rotated user =
      update_sessions (update_current_token session.id replacement now)
      >> pure (rotation_result c lifetimes now replacement access_id claims session user)

  pub rotate_session-current :
      (session.current_jti == claims.token_id) ≡ true
      → rotate_session c lifetimes now replacement access_id (claims, session) db
        ≡ settled (active_user claims.user_id db.users)
  unfolding rotate_session
  rotate_session-current h =
      >>=-run (require_current_token c session claims now)
        (λ _. resolve_active_user claims.user_id >>= rotated) db (require_current_token-current h)
      ∙ >>=-run (resolve_active_user claims.user_id) rotated db
          (resolve_active_user-run claims.user_id db)

module _ (c : Crypto) (lifetimes : Lifetimes) (now replacement access_id : ℕ) (token : String)
    (cookie header : Option String) (db : Db) where
  abbrev pub proceed :
      Result AuthError (RefreshTokenClaims × AuthSession)
      → Result AuthError RefreshRotationResult × Db
  proceed (err e) = (err e, db)
  proceed (ok p) = rotate_session c lifetimes now replacement access_id p db

  -- A run of the rotation from the checks of its token.
  pub rotate-run :
      rotate_refresh_token_with_csrf c lifetimes now replacement access_id token cookie header db
      ≡ proceed (usable c now token cookie header db.sessions)
  unfolding rotate_refresh_token_with_csrf
  rotate-run =
      >>=-run (usable_session c now token cookie header)
        (rotate_session c lifetimes now replacement access_id) db
        (usable_session-run c now token cookie header db)
