-- ===== src/PasswordReset/Inversion.antt =====
-- What has happened where a confirmation returns.
use Prim.Native.String
use text.Mathlib.Text.{◌==◌ as str_eq}
use opsflow.Prelude.{
  ℕ, ◌≤◌, ◌<◌, ◌≡◌, refl, sym, subst, true, false, String, Option, none, some, Result, ok, err,
  arith,
}
use opsflow.Auth.Sessions.{revoke_all_for_user}
use opsflow.Auth.Tokens.{Crypto, create_reauthentication_fingerprint}
use opsflow.Auth.Users
use opsflow.Auth.Users.{
  User, UserAuthRecord, get_auth_record_by_email, update_password_hash_if_current,
}
use opsflow.Auth.Password.{validate_new_password}
use opsflow.PasswordReset.{
  PasswordResetToken, is_active, get_by_digest, mark_used, invalidate_active_for_user,
}
use opsflow.PasswordReset.Service.{
  ResetDb, ResetError, PasswordResetCompletionResult, normalized, require_usable_token,
  reset_credential, apply_reset, confirm_reset, replace_hash, consume, invalidate, revoke_all,
  check_new_password,
}

-- The token is usable, and is bound to the current credential of its active user.
abbrev pub Usable :
    Crypto → (String → String) → ℕ → String → ResetDb → PasswordResetToken → UserAuthRecord → Type 0
Usable c digest_token now raw_token db token current =
    (get_by_digest (digest_token raw_token) db.tokens ≡ some token)
    × (is_active token ≡ true)
    × (now < token.expires_at)
    × (current.user.id ≡ token.user_id)
    × (str_eq (create_reauthentication_fingerprint c current.hashed_password)
          token.credential_fingerprint
        ≡ true)

-- What `apply_reset` has written.
abbrev pub Written :
    Crypto
    → ℕ
    → String
    → String
    → PasswordResetToken
    → UserAuthRecord
    → ResetDb
    → PasswordResetCompletionResult
    → ResetDb
    → Type 0
Written c now new hash token current db r db' =
    (15 ≤ String.count new)
    × (String.count new ≤ 128)
    × (c.verify_password new current.hashed_password ≡ false)
    × (update_password_hash_if_current now current.user.id current.hashed_password hash
          db.accounts.users
        ≡ (true, db'.accounts.users))
    × (r.user_id ≡ current.user.id)
    × ((mark_used token.id now db.tokens).0 ≡ true)
    × (db'.tokens
        ≡ (invalidate_active_for_user current.user.id now (some token.id)
            (mark_used token.id now db.tokens).1).1)
    × ((r.revoked_sessions, db'.accounts.sessions)
        ≡ revoke_all_for_user current.user.id now "password_reset" db.accounts.sessions)

module _ (c : Crypto) (digest_token : String → String) (now : ℕ) where
  reset_credential-inversion :
      (raw_token : String) (db db' : ResetDb) (token : PasswordResetToken)
      (current : UserAuthRecord)
      → reset_credential c digest_token now raw_token db ≡ (ok (token, current), db')
      → (db ≡ db') × Usable c digest_token now raw_token db token current
  unfolding reset_credential require_usable_token
  reset_credential-inversion raw_token db db' token current h =
      by_token (get_by_digest (digest_token raw_token) db.tokens) refl
    where
      by_credential :
          (t : PasswordResetToken) (user : User) (row : Option UserAuthRecord)
          → get_by_digest (digest_token raw_token) db.tokens ≡ some t
          → Users.get_by_id t.user_id db.accounts.users ≡ some user
          → get_auth_record_by_email (normalized c user.email) db.accounts.users ≡ row
          → user.id ≡ t.user_id
          → (db ≡ db') × Usable c digest_token now raw_token db token current
      by_credential t user none ft fu fr own = absurd (ground arith)
      by_credential t user (some row) ft fu fr own =
          (ground arith, (ground arith, ground arith, ground arith, ground arith, ground arith))

      by_user :
          (t : PasswordResetToken) (user : Option User)
          → get_by_digest (digest_token raw_token) db.tokens ≡ some t
          → Users.get_by_id t.user_id db.accounts.users ≡ user
          → (db ≡ db') × Usable c digest_token now raw_token db token current
      by_user t none ft fu = absurd (ground arith)
      by_user t (some user) ft fu =
          by_credential t user
            (get_auth_record_by_email (normalized c user.email) db.accounts.users) ft fu refl
            (Users.id-get_by_id t.user_id db.accounts.users user fu)

      by_token :
          (t : Option PasswordResetToken)
          → get_by_digest (digest_token raw_token) db.tokens ≡ t
          → (db ≡ db') × Usable c digest_token now raw_token db token current
      by_token none ft = absurd (ground arith)
      by_token (some t) ft = by_user t (Users.get_by_id t.user_id db.accounts.users) ft refl

  apply_reset-inversion :
      (new hash : String) (token : PasswordResetToken) (current : UserAuthRecord) (db db' : ResetDb)
      (r : PasswordResetCompletionResult)
      → apply_reset c digest_token now new hash (token, current) db ≡ (ok r, db')
      → Written c now new hash token current db r db'
  unfolding apply_reset check_new_password validate_new_password replace_hash consume invalidate
      revoke_all
  apply_reset-inversion new hash token current db db' r h = (
    ground arith,
    ground arith,
    ground arith,
    ground arith,
    ground arith,
    ground arith,
    ground arith,
    ground arith,
  )

  pub confirm_reset-inversion :
      (raw_token new hash : String) (db db' : ResetDb) (r : PasswordResetCompletionResult)
      → confirm_reset c digest_token now raw_token new hash db ≡ (ok r, db')
      → (token : PasswordResetToken) × (current : UserAuthRecord) × Usable c digest_token now
          raw_token db token current
        × Written c now new hash token current db r db'
  unfolding confirm_reset
  confirm_reset-inversion raw_token new hash db db' r h =
      from (reset_credential c digest_token now raw_token db).0
        (reset_credential c digest_token now raw_token db).1 refl h
    where
      from :
          (checked : Result ResetError (PasswordResetToken × UserAuthRecord)) (mid : ResetDb)
          → reset_credential c digest_token now raw_token db ≡ (checked, mid)
          → (elim checked [
            | ok a ↦ apply_reset c digest_token now new hash a mid
            | err e ↦ (err e, mid)
          ])
            ≡ (ok r, db')
          → (token : PasswordResetToken) × (current : UserAuthRecord) × Usable c digest_token now
              raw_token db token current
            × Written c now new hash token current db r db'
      from (ok (token, current)) mid e h' =
          let (same, usable) = reset_credential-inversion raw_token db mid token current e in
          (
            token,
            current,
            usable,
            apply_reset-inversion new hash token current db db' r (
                subst
                  (λ d. apply_reset c digest_token now new hash (token, current) d ≡ (ok r, db'))
                  (sym same) h'),
          )
      from (err e) mid q h' = ground arith
