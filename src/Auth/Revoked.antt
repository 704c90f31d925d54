-- ===== src/Auth/Revoked.antt =====
-- backend/app/services/authentication_service.py: sessions that are revoked.
use opsflow.Prelude.{
  ℕ, ◌≡◌, refl, ◌∙◌, ap, true, String, Option, some, ok, err, ◌==◌, arith, if◌then◌else◌,
}
use opsflow.Auth.Action.{Db, AuthError, invalid_credentials, invalid_csrf_token, >>=-run}
use opsflow.Auth.Sessions
use opsflow.Auth.Sessions.{AuthSession, revoke_all_for_user}
use opsflow.Auth.Sessions.Revocation.{
  live_count, ClosesAll, revoke_all_closes, live_count-revoke_all, revoke_all_counts,
}
use opsflow.Auth.Users.{User}
use opsflow.Auth.Tokens.{Crypto, RefreshTokenClaims, decode_refresh_token}
use opsflow.Auth.Service.{
  Lifetimes, usable_session, rotate_refresh_token_with_csrf, revoke_refresh_session_with_csrf,
  log_out_session, revoke_all_sessions_for_user, revoke_all, require_active_user,
}
use opsflow.Auth.Refresh.{usable, is_usable, csrf_holds, checked_session, usable_session-run}
use opsflow.Auth.Rotation.{proceed, rotate-run}

-- The error of a token whose session is revoked.
abbrev refusal : Crypto → ℕ → Option String → Option String → AuthError
refusal c session_id cookie header =
    if csrf_holds c session_id cookie header then invalid_credentials else invalid_csrf_token

module _ (c : Crypto) (lifetimes : Lifetimes) (now replacement access_id : ℕ) (token : String)
    (cookie header : Option String) (db : Db) (claims : RefreshTokenClaims) (row : AuthSession)
    (t : ℕ) where
  not_usable :
      decode_refresh_token c now token ≡ some claims
      → Sessions.get_by_id claims.session_id db.sessions ≡ some row
      → row.revoked_at ≡ some t
      → usable c now token cookie header db.sessions
        ≡ err (refusal c claims.session_id cookie header)
  unfolding usable checked_session is_usable
  not_usable d f h = ground arith

  log_out-refused :
      (e : AuthError)
      → usable c now token cookie header db.sessions ≡ err e
      → revoke_refresh_session_with_csrf c now token cookie header db ≡ (err e, db)
  unfolding revoke_refresh_session_with_csrf
  log_out-refused e h =
      >>=-run (usable_session c now token cookie header) (log_out_session c now) db
        (usable_session-run c now token cookie header db ∙ ap (λ r. (r, db)) h)

-- A refresh token of a revoked session is refused by a rotation and by a logout, and nothing changes:
-- with the CSRF error where the CSRF check fails, with `InvalidCredentialsError` otherwise.
pub revoked_session_refused :
    (c : Crypto) (lifetimes : Lifetimes) (now replacement access_id : ℕ) (token : String)
    (cookie header : Option String) (db : Db) (claims : RefreshTokenClaims) (row : AuthSession)
    (t : ℕ)
    → decode_refresh_token c now token ≡ some claims
    → Sessions.get_by_id claims.session_id db.sessions ≡ some row
    → row.revoked_at ≡ some t
    → (rotate_refresh_token_with_csrf c lifetimes now replacement access_id token cookie header db
        ≡ (err (refusal c claims.session_id cookie header), db))
      × (revoke_refresh_session_with_csrf c now token cookie header db
          ≡ (err (refusal c claims.session_id cookie header), db))
revoked_session_refused c lifetimes now replacement access_id token cookie header db claims row t d
      f h =
    let e =
      not_usable c lifetimes now replacement access_id token cookie header db claims row t d f h in
    (
      rotate-run c lifetimes now replacement access_id token cookie header db
          ∙ ap (proceed c lifetimes now replacement access_id token cookie header db) e,
      log_out-refused c lifetimes now replacement access_id token cookie header db claims row t _ e,
    )

-- For an active user, "log out everywhere" returns the number of the user's live sessions. Each of
-- these is revoked at that time for that reason and keeps its other fields; the user's sessions that
-- were revoked before, every session of any other user and all users are as they were. So the user has
-- no live session left, and every other user has as many as before.
pub revoke_all_complete :
    (now : ℕ) (user : User) (db : Db)
    → user.is_active ≡ true
    → (db' : Db) × (revoke_all_sessions_for_user now user db
        ≡ (ok (live_count user.id db.sessions), db'))
      × (db'.users ≡ db.users)
      × ClosesAll user.id now "logout_all" db.sessions db'.sessions
      × ((other : ℕ)
          → live_count other db'.sessions
            ≡ (if other == user.id then 0 else live_count other db.sessions))
unfolding revoke_all_sessions_for_user revoke_all require_active_user
revoke_all_complete now user db active = (
  record db { sessions = (revoke_all_for_user user.id now "logout_all" db.sessions).1 },
  rw (active, revoke_all_counts user.id now "logout_all" db.sessions) refl,
  refl,
  revoke_all_closes user.id now "logout_all" db.sessions,
  λ other. live_count-revoke_all user.id now "logout_all" other db.sessions,
)
