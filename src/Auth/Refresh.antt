-- ===== src/Auth/Refresh.antt =====
-- backend/app/services/authentication_service.py: what the checks of a refresh token come to.
use opsflow.Prelude.{
  ℕ, ◌≡◌, refl, ◌∙◌, Bool, false, not, ◌&&◌, String, Option, none, some, Result, ok, err, leb, ◌==◌,
  Option-cases, inl, inr, arith, if◌then◌else◌,
}
use text.Mathlib.Text.{◌==◌ as str_eq}
use opsflow.Auth.Action.{
  Db, AuthError, >>=-run, invalid_credentials, inactive_user, invalid_csrf_token, pure,
}
use opsflow.Auth.Sessions
use opsflow.Auth.Sessions.{AuthSession, SessionTable, is_none}
use opsflow.Auth.Users
use opsflow.Auth.Users.{User, UserTable}
use opsflow.Auth.Tokens.{Crypto, RefreshTokenClaims, decode_refresh_token, validate_csrf_token}
use opsflow.Auth.Service.{
  require_active_user, resolve_active_user, require_usable_session, validate_csrf,
  decode_refresh_token_with_csrf, usable_session, locked_session,
}

-- A session that a token may still use.
unfoldable pub is_usable : AuthSession → RefreshTokenClaims → ℕ → Bool
is_usable session claims now =
    is_none session.revoked_at
    && (not (leb session.expires_at now) && session.user_id == claims.user_id)

-- The cookie and the header are both there, are the same and are bound to the session.
unfoldable pub csrf_holds : Crypto → ℕ → Option String → Option String → Bool
csrf_holds c session_id (some cookie) (some header) =
    str_eq cookie header && validate_csrf_token c session_id cookie
csrf_holds c session_id none header = false
csrf_holds c session_id (some _) none = false

unfoldable pub active_user : ℕ → UserTable → Result AuthError User
active_user user_id users = elim (Users.get_by_id user_id users) [
  | none ↦ err invalid_credentials
  | some user ↦ if user.is_active then ok user else err inactive_user
]

-- The session that the claims name, where it is usable.
unfoldable pub checked_session :
    ℕ → RefreshTokenClaims → SessionTable → Result AuthError (RefreshTokenClaims × AuthSession)
checked_session now claims table = elim (Sessions.get_by_id claims.session_id table) [
  | none ↦ err invalid_credentials
  | some session ↦
      if is_usable session claims now then ok (claims, session) else err invalid_credentials
]

-- The claims and the session, where every check of the token passes.
unfoldable pub usable :
    Crypto
    → ℕ
    → String
    → Option String
    → Option String
    → SessionTable
    → Result AuthError (RefreshTokenClaims × AuthSession)
usable c now token cookie header table = elim (decode_refresh_token c now token) [
  | none ↦ err invalid_credentials
  | some claims ↦
      if csrf_holds c claims.session_id cookie header
      then checked_session now claims table
      else err invalid_csrf_token
]

pub resolve_active_user-run :
    (user_id : ℕ) (db : Db) → resolve_active_user user_id db ≡ (active_user user_id db.users, db)
unfolding resolve_active_user require_active_user active_user
resolve_active_user-run user_id db = ground arith

pub require_usable_session-run :
    (session : AuthSession) (claims : RefreshTokenClaims) (now : ℕ) (db : Db)
    → require_usable_session session claims now db
      ≡ ((if is_usable session claims now then ok tt else err invalid_credentials), db)
unfolding require_usable_session is_usable
require_usable_session-run session claims now db = ground arith

pub validate_csrf-run :
    (c : Crypto) (session_id : ℕ) (cookie header : Option String) (db : Db)
    → validate_csrf c session_id cookie header db
      ≡ ((if csrf_holds c session_id cookie header then ok tt else err invalid_csrf_token), db)
unfolding validate_csrf csrf_holds
validate_csrf-run c session_id none header db = refl
validate_csrf-run c session_id (some cookie) none db = refl
validate_csrf-run c session_id (some cookie) (some header) db = ground arith

pub decode_refresh_token_with_csrf-run :
    (c : Crypto) (now : ℕ) (token : String) (cookie header : Option String) (db : Db)
    → decode_refresh_token_with_csrf c now token cookie header db ≡ (
      elim (decode_refresh_token c now token) [
        | none ↦ err invalid_credentials
        | some claims ↦
            if csrf_holds c claims.session_id cookie header
            then ok claims
            else err invalid_csrf_token
      ],
      db,
    )
unfolding decode_refresh_token_with_csrf
decode_refresh_token_with_csrf-run c now token cookie header db =
    elim (Option-cases (decode_refresh_token c now token)) [
      | inl e ↦ rw e refl
      | inr (claims, e) ↦ rw e (
          >>=-run (validate_csrf c claims.session_id cookie header) (λ _. pure claims) db
            (validate_csrf-run c claims.session_id cookie header db)
          ∙ ground arith)
    ]

pub locked_session-run :
    (now : ℕ) (claims : RefreshTokenClaims) (db : Db)
    → locked_session now claims db ≡ (checked_session now claims db.sessions, db)
unfolding locked_session checked_session
locked_session-run now claims db =
    elim (Option-cases (Sessions.get_by_id claims.session_id db.sessions)) [
      | inl e ↦ ground arith
      | inr (session, e) ↦
          let run =
            >>=-run {B = RefreshTokenClaims × AuthSession}
              (require_usable_session session claims now) (λ _. pure (claims, session)) db
              (require_usable_session-run session claims now db) in
          ground arith
    ]

pub usable_session-run :
    (c : Crypto) (now : ℕ) (token : String) (cookie header : Option String) (db : Db)
    → usable_session c now token cookie header db
      ≡ (usable c now token cookie header db.sessions, db)
unfolding usable_session usable
usable_session-run c now token cookie header db =
    >>=-run (decode_refresh_token_with_csrf c now token cookie header) (locked_session now) db
      (decode_refresh_token_with_csrf-run c now token cookie header db)
    ∙ (elim (Option-cases (decode_refresh_token c now token)) [
      | inl e ↦ ground arith
      | inr (claims, e) ↦ let run = locked_session-run now claims db in ground arith
    ])
