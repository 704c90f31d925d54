-- ===== src/Api/Tokens/Logout.antt =====
-- backend/app/api/routes/auth.py: what a logout leaves behind.
use opsflow.Prelude.{
  ℕ, ◌≡◌, ◌⊎◌, refl, ◌∙◌, ap, sym, subst, String, none, some, Result, ok, err, ◌==◌, Bool-cases,
  ==_refl, Option-cases, inl, inr, arith, true, false,
}
use opsflow.Auth.Action.{
  Db, AuthError, invalid_credentials, inactive_user, invalid_csrf_token, refresh_token_reuse,
  >>=-run, Action, ◌>>◌, pure, update_sessions,
}
use opsflow.Auth.Sessions
use opsflow.Auth.Sessions.{AuthSession, is_none, revoke, revoked_row}
use opsflow.Auth.Sessions.Laws.{get_by_id-revoke, id-get_by_id}
use opsflow.Auth.Users.{User}
use opsflow.Auth.Users
use opsflow.Auth.Tokens.{Crypto, RefreshTokenClaims}
use opsflow.Auth.Service.{
  require_current_token, resolve_active_user, usable_session, log_out_session,
  revoke_refresh_session_with_csrf,
}
use opsflow.Auth.Refresh.{
  usable, is_usable, active_user, usable_session-run, resolve_active_user-run,
}
use opsflow.Api.{Ending, no_body, respond, Answered, answer}
use opsflow.Api.Events.{SecurityEvent}
use opsflow.Prelude.{List}
use opsflow.Auth.Moves.{usable-inversion}
use opsflow.Api.Cookies.{CookieSettings, get_refresh_cookie, get_csrf_cookie, clear_auth_cookies}
use opsflow.Api.Tokens.{Credentials, csrf_exception, on_logout_error, after_logout, logout}

-- A session that is revoked at a time.
abbrev pub IsRevokedAt : ℕ → ℕ → Db → Type 0
IsRevokedAt now session_id db =
    (row : AuthSession) × (Sessions.get_by_id session_id db.sessions ≡ some row)
    × (row.revoked_at ≡ some now)

active_user-cases :
    (user_id : ℕ) (db : Db)
    → (active_user user_id db.users ≡ err invalid_credentials)
      ⊎ ((active_user user_id db.users ≡ err inactive_user)
          ⊎ ((user : User) × (active_user user_id db.users ≡ ok user)))
unfolding active_user
active_user-cases user_id db = elim (Option-cases (Users.get_by_id user_id db.users)) [
  | inl missing ↦ inl (ground arith)
  | inr (user, there) ↦ elim (Bool-cases user.is_active) [
    | inl active ↦ inr (inr (user, ground arith))
    | inr inactive ↦ inr (inl (ground arith))
  ]
]

module _ (c : Crypto) (now : ℕ) (claims : RefreshTokenClaims) (session : AuthSession)
    (db : Db) where
  abbrev closed : User → Action (User × ℕ)
  closed user = update_sessions (revoke session.id now "logout") >> pure (user, session.id)

  -- What a logout does with the user it looks for.
  abbrev settled : Result AuthError User → Result AuthError (User × ℕ) × Db
  settled (err e) = (err e, db)
  settled (ok user) = closed user db

  log_out-current :
      (session.current_jti == claims.token_id) ≡ true
      → log_out_session c now (claims, session) db ≡ settled (active_user claims.user_id db.users)
  unfolding log_out_session require_current_token
  log_out-current h = rw h (
      >>=-run (resolve_active_user claims.user_id) closed db
        (resolve_active_user-run claims.user_id db))

  log_out-reuse :
      (session.current_jti == claims.token_id) ≡ false
      → log_out_session c now (claims, session) db ≡ (
        err (refresh_token_reuse session.user_id session.id),
        record db { sessions = revoke session.id now "refresh_token_reuse" db.sessions },
      )
  unfolding log_out_session require_current_token
  log_out-reuse h = rw h refl

  -- How the logout of a usable session ends.
  abbrev Closing : Result AuthError (User × ℕ) × Db → Type 0
  Closing (ok _, db') = IsRevokedAt now session.id db'
  Closing (err (refresh_token_reuse _ _), db') = IsRevokedAt now session.id db'
  Closing (err invalid_csrf_token, db') = ⊥
  Closing (err e, db') = (active_user claims.user_id db.users ≡ err e) × (db' ≡ db)

  settled-Closing :
      IsRevokedAt now session.id
        (record db { sessions = revoke session.id now "logout" db.sessions })
      → Closing (settled (active_user claims.user_id db.users))
  settled-Closing out = elim (active_user-cases claims.user_id db) [
    | inl e ↦ subst (λ r. Closing (settled r)) (sym e) (e, refl)
    | inr (inl e) ↦ subst (λ r. Closing (settled r)) (sym e) (e, refl)
    | inr (inr (user, e)) ↦ subst (λ r. Closing (settled r)) (sym e) out
  ]

  log_out_session-Closing :
      ((reason : String)
        → IsRevokedAt now session.id
            (record db { sessions = revoke session.id now reason db.sessions }))
      → Closing (log_out_session c now (claims, session) db)
  log_out_session-Closing revoked = elim (Bool-cases (session.current_jti == claims.token_id)) [
    | inl current ↦
        subst Closing (sym (log_out-current current)) (settled-Closing (revoked "logout"))
    | inr other ↦ subst Closing (sym (log_out-reuse other)) (revoked "refresh_token_reuse")
  ]

-- The row of a usable session after it is revoked.
revoke-IsRevokedAt :
    (now : ℕ) (session : AuthSession) (db : Db) (reason : String)
    → Sessions.get_by_id session.id db.sessions ≡ some session
    → session.revoked_at ≡ none
    → IsRevokedAt now session.id (record db { sessions = revoke session.id now reason db.sessions })
revoke-IsRevokedAt now session db reason found live =
    let here = ==_refl session.id in
    (
      revoked_row now reason session,
      ground (arith, get_by_id-revoke session.id session.id now reason db.sessions),
      refl,
    )

module _ (settings : CookieSettings) (c : Crypto) (now : ℕ) (request : Credentials) (db : Db) where
  abbrev checked : String → Result AuthError (RefreshTokenClaims × AuthSession)
  checked token =
      usable c now token (get_csrf_cookie settings request.cookies) request.csrf_header db.sessions

  -- The response that deletes both cookies.
  abbrev IsCleared : Answered Db → Type 0
  IsCleared a = a.response ≡ respond 204 no_body (clear_auth_cookies settings)

  -- The logout by what the checks of its token come to.
  abbrev pub LoggedOut : Result AuthError (RefreshTokenClaims × AuthSession) → Answered Db → Type 0
  LoggedOut (err invalid_csrf_token) a = (a.response ≡ csrf_exception) × (a.state ≡ db)
  LoggedOut (err _) a = IsCleared a × (a.state ≡ db)
  LoggedOut (ok (claims, session)) a =
      IsCleared a
      × (IsRevokedAt now session.id a.state
          ⊎ (((e : AuthError) × (active_user claims.user_id db.users ≡ err e)) × (a.state ≡ db)))

  abbrev ended : Result AuthError (User × ℕ) × Db → Answered Db
  ended (result, db') =
      answer (λ _. ((after_logout settings c result).0, (after_logout settings c result).1, db')) db

  logout-run :
      (token : String)
      → get_refresh_cookie settings request.cookies ≡ some token
      → logout settings c now request db ≡ (
          let (result, db') =
            revoke_refresh_session_with_csrf c now token
              (get_csrf_cookie settings request.cookies)
              request.csrf_header
              db in
          ((after_logout settings c result).0, (after_logout settings c result).1, db'))
  unfolding logout
  logout-run token sent = rw (logout, sent) refl

  abbrev proceed :
      Result AuthError (RefreshTokenClaims × AuthSession) → Result AuthError (User × ℕ) × Db
  proceed (err e) = (err e, db)
  proceed (ok p) = log_out_session c now p db

  revoke-run :
      (token : String)
      → revoke_refresh_session_with_csrf c now token
          (get_csrf_cookie settings request.cookies)
          request.csrf_header
          db
        ≡ proceed (checked token)
  unfolding revoke_refresh_session_with_csrf
  revoke-run token =
      >>=-run
        (usable_session c now token (get_csrf_cookie settings request.cookies) request.csrf_header)
        (log_out_session c now) db
        (usable_session-run c now token (get_csrf_cookie settings request.cookies)
          request.csrf_header db)

  ended-LoggedOut :
      (claims : RefreshTokenClaims) (session : AuthSession)
      (closing : Result AuthError (User × ℕ) × Db)
      → Closing c now claims session db closing
      → LoggedOut (ok (claims, session)) (ended closing)
  unfolding answer after_logout on_logout_error
  ended-LoggedOut claims session (ok (user, id), db') how = (refl, inl how)
  ended-LoggedOut claims session (err (refresh_token_reuse user_id id), db') how = (refl, inl how)
  ended-LoggedOut claims session (err invalid_csrf_token, db') how = absurd how
  ended-LoggedOut claims session (err e, db') how = (refl, inr ((e, how.0), how.1))

  checked-LoggedOut :
      (outcome : Result AuthError (RefreshTokenClaims × AuthSession))
      → ((claims : RefreshTokenClaims) (session : AuthSession)
          → outcome ≡ ok (claims, session)
          → Closing c now claims session db (log_out_session c now (claims, session) db))
      → LoggedOut outcome (ended (proceed outcome))
  unfolding answer after_logout on_logout_error
  checked-LoggedOut (ok (claims, session)) how =
      ended-LoggedOut claims session _ (how claims session refl)
  checked-LoggedOut (err invalid_csrf_token) how = (refl, refl)
  checked-LoggedOut (err e) how = (refl, refl)

  usable-Closing :
      (token : String) (claims : RefreshTokenClaims) (session : AuthSession)
      → checked token ≡ ok (claims, session)
      → Closing c now claims session db (log_out_session c now (claims, session) db)
  unfolding is_usable
  usable-Closing token claims session passed =
      let (decoded, held, found, live) =
        usable-inversion c now token (get_csrf_cookie settings request.cookies) request.csrf_header
          db.sessions claims session passed in
      let there = id-get_by_id claims.session_id db.sessions found in
      let here = subst (λ i. Sessions.get_by_id i db.sessions ≡ some session) (sym there) found in
      log_out_session-Closing c now claims session db
        (λ reason. revoke-IsRevokedAt now session db reason here (ground arith))

  -- A logout with a refresh cookie: if the CSRF check fails it is refused and changes nothing; else it
  -- deletes both cookies, and changes nothing where the token is refused, while a usable session is
  -- revoked and committed, also where the token is not its current one, unless its user is not active.
  pub logout-LoggedOut :
      (token : String)
      → get_refresh_cookie settings request.cookies ≡ some token
      → LoggedOut (checked token) (answer (logout settings c now request) db)
  unfolding answer
  logout-LoggedOut token sent =
      let run =
        logout-run token sent
        ∙ ap (λ p. ((after_logout settings c p.0).0, (after_logout settings c p.0).1, p.1))
            (revoke-run token) in
      subst
        (λ (e : Ending × List SecurityEvent × Db). LoggedOut (checked token) (answer (λ _. e) db))
        (sym run) (checked-LoggedOut (checked token) (usable-Closing token))
