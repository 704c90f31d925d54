-- ===== src/Auth/Resolve.antt =====
-- backend/app/services/authentication_service.py: the methods that only read. A password is verified
-- also where no user has the address, which has no effect; `reauth_lifetime` is the setting in
-- microseconds.
use opsflow.Prelude.{
  ℕ, ◌≡◌, true, not, ◌||◌, String, Option, some, ok, ◌==◌, Option-cases, inl, inr, arith,
}
use opsflow.Auth.Action.{
  Db, invalid_credentials, reauthentication_failed, Action, ◌>>=◌, ◌>>◌, pure, or_raise, gets,
  raise_if,
}
use opsflow.Auth.Sessions
use opsflow.Auth.Sessions.{AuthSession}
use opsflow.Auth.Users.{User, UserAuthRecord, get_auth_record_by_email}
use opsflow.Auth.Tokens.{
  Crypto, Payload, RefreshTokenClaims, create_access_token, decode_reauthentication_token,
  reauthentication_credential_matches,
}
use opsflow.Auth.Tokens.Proofs.{decode_access_token, create_reauthentication_token}
use opsflow.Auth.Service.{
  Lifetimes, require_active_user, resolve_active_user, require_usable_session,
  decode_refresh_token_with_csrf,
}

pub record ResolvedRefreshSession : Type 0 where
  pub user : User
  pub session : AuthSession
  pub claims : RefreshTokenClaims

module _ (c : Crypto) where
  -- `reauthenticate`
  unfoldable pub reauthenticate :
      (Payload → String) → (now reauth_lifetime token_id : ℕ) → User → String → Action String
  unfolding require_active_user create_reauthentication_token
  reauthenticate encode_reauth now reauth_lifetime token_id user password = do
    require_active_user user
    found ← gets (λ db. get_auth_record_by_email (c.lower (c.strip user.email)) db.users)
    row ← or_raise found reauthentication_failed
    raise_if (not (c.verify_password password row.hashed_password) || not (row.user.id == user.id))
        reauthentication_failed
    pure (
        create_reauthentication_token c encode_reauth now reauth_lifetime token_id user.id
          row.hashed_password)

  -- `resolve_reauthentication_token`
  unfoldable pub resolve_reauthentication_token : ℕ → String → Action User
  unfolding resolve_active_user
  resolve_reauthentication_token now token = do
    claims ← or_raise (decode_reauthentication_token c now token) reauthentication_failed
    user ← resolve_active_user claims.user_id
    found ← gets (λ db. get_auth_record_by_email (c.lower (c.strip user.email)) db.users)
    row ← or_raise found reauthentication_failed
    raise_if (not (row.user.id == user.id)) reauthentication_failed
    raise_if
        (not
          (reauthentication_credential_matches c row.hashed_password claims.credential_fingerprint))
        reauthentication_failed
    pure user

  -- `issue_access_token`
  unfoldable pub issue_access_token : Lifetimes → (now access_id : ℕ) → User → Action String
  unfolding require_active_user
  issue_access_token lifetimes now access_id user = do
    require_active_user user
    pure (create_access_token c now lifetimes.access_token access_id user.id)

  -- `resolve_access_token`
  unfoldable pub resolve_access_token : (ℕ → String → Option Payload) → ℕ → String → Action User
  unfolding resolve_active_user
  resolve_access_token decode_access now token = do
    user_id ← or_raise (decode_access_token c decode_access now token) invalid_credentials
    resolve_active_user user_id

  -- `resolve_refresh_token_with_csrf`
  unfoldable pub resolve_refresh_token_with_csrf :
      ℕ → String → Option String → Option String → Action ResolvedRefreshSession
  unfolding decode_refresh_token_with_csrf require_usable_session resolve_active_user
  resolve_refresh_token_with_csrf now token cookie header = do
    claims ← decode_refresh_token_with_csrf c now token cookie header
    found ← gets (λ db. Sessions.get_by_id claims.session_id db.sessions)
    session ← or_raise found invalid_credentials
    require_usable_session session claims now
    raise_if (not (session.current_jti == claims.token_id)) invalid_credentials
    user ← resolve_active_user claims.user_id
    pure (record { user = user; session = session; claims = claims })

  -- A proof that is made for a password is made of the stored hash of an active user, and changes
  -- nothing.
  pub reauthenticate-inversion :
      (encode_reauth : Payload → String) (now reauth_lifetime token_id : ℕ) (user : User)
      (password token : String) (db db' : Db)
      → reauthenticate encode_reauth now reauth_lifetime token_id user password db ≡ (ok token, db')
      → (row : UserAuthRecord) × (get_auth_record_by_email (c.lower (c.strip user.email)) db.users
          ≡ some row)
        × (user.is_active ≡ true)
        × (c.verify_password password row.hashed_password ≡ true)
        × (row.user.id ≡ user.id)
        × (token
            ≡ create_reauthentication_token c encode_reauth now reauth_lifetime token_id user.id
                row.hashed_password)
        × (db ≡ db')
  unfolding reauthenticate
  reauthenticate-inversion encode_reauth now reauth_lifetime token_id user password token db db' h =
      elim (Option-cases (get_auth_record_by_email (c.lower (c.strip user.email)) db.users)) [
        | inl missing ↦ absurd (ground arith)
        | inr (row, found) ↦
            (row, found, ground arith, ground arith, ground arith, ground arith, ground arith)
      ]
