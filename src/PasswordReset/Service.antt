-- ===== src/PasswordReset/Service.antt =====
-- backend/app/services/password_reset_service.py: class PasswordResetService, and its requests as
-- transactions. SHA-256, the random token, the new id, the time and the hash of the new password with
-- its random salt are arguments.
use text.Mathlib.Text.{◌==◌ as str_eq}
use opsflow.Prelude.{
  ℕ, ◌+◌, Bool, not, String, Option, none, some, List, [], ◌∷◌, Result, ok, err, leb, ◌==◌,
  if◌then◌else◌,
}
use opsflow.Auth.Action.{Db}
use opsflow.Auth.Sessions.{is_none, revoke_all_for_user}
use opsflow.Auth.Users
use opsflow.Auth.Users.{
  User, UserAuthRecord, get_auth_record_by_email, update_password_hash_if_current,
}
use opsflow.Auth.Tokens.{Crypto, create_reauthentication_fingerprint}
use opsflow.Auth.Password.{validate_new_password}
use opsflow.PasswordReset
use opsflow.PasswordReset.{
  PasswordResetToken, TokenTable, get_by_digest, mark_used, invalidate_active_for_user,
}

pub record ResetDb : Type 0 where
  pub accounts : Db
  pub tokens : TokenTable

-- `InvalidPasswordResetCredentialError` and `PasswordResetPasswordError`
pub data ResetError : Type 0 where
  invalid_credential password_rejected : ResetError

abbrev pub ResetAction : Type 0 → Type 0
ResetAction A = ResetDb → Result ResetError A × ResetDb

infixl 5 ◌>>=◌ ◌>>◌
abbrev pub ◌>>=◌ : {A B : Type 0} → ResetAction A → (A → ResetAction B) → ResetAction B
◌>>=◌ m f db = let (r, db') = m db in elim r [ ok a ↦ f a db' | err e ↦ (err e, db') ]

abbrev pub ◌>>◌ : {A B : Type 0} → ResetAction A → ResetAction B → ResetAction B
m >> k = m >>= λ _. k

module _ {A : Type 0} where
  abbrev pub pure : A → ResetAction A
  pure a db = (ok a, db)

  abbrev pub found : (ResetDb → Option A) → ResetAction A
  found f db = (elim (f db) [ none ↦ err invalid_credential | some a ↦ ok a ], db)

abbrev pub refuse_if : Bool → ResetError → ResetAction (Unit {0})
refuse_if b e db = (if b then err e else ok tt, db)

pub record PasswordResetIssueResult : Type 0 where
  pub user_id : ℕ
  pub email : String
  pub raw_token : String
  pub expires_at : ℕ

pub record PasswordResetCompletionResult : Type 0 where
  pub user_id : ℕ
  pub revoked_sessions : ℕ

-- `_validate_new_password`
unfoldable pub check_new_password : String → ResetAction (Unit {0})
unfolding validate_new_password
check_new_password password db = (
  elim (validate_new_password password db.accounts).0 [
    | ok _ ↦ ok tt
    | err _ ↦ err password_rejected
  ],
  db,
)

-- `_require_usable_token`
unfoldable pub require_usable_token : ℕ → PasswordResetToken → ResetAction (Unit {0})
require_usable_token now token = do
  refuse_if (not (is_none token.used_at)) invalid_credential
  refuse_if (not (is_none token.invalidated_at)) invalid_credential
  refuse_if (leb token.expires_at now) invalid_credential

-- The statements of `confirm_reset` that write.
unfoldable pub replace_hash : ℕ → ℕ → String → String → ResetAction Bool
replace_hash now user_id expected replacement db =
    let (updated, users) =
      update_password_hash_if_current now user_id expected replacement db.accounts.users in
    (ok updated, record db { accounts = record (db.accounts) { users = users } })

unfoldable pub consume : ℕ → ℕ → ResetAction Bool
consume token_id now db =
    let (consumed, tokens) = mark_used token_id now db.tokens in
    (ok consumed, record db { tokens = tokens })

unfoldable pub invalidate : ℕ → ℕ → Option ℕ → ResetAction ℕ
invalidate user_id now exclude_token_id db =
    let (count, tokens) = invalidate_active_for_user user_id now exclude_token_id db.tokens in
    (ok count, record db { tokens = tokens })

unfoldable pub revoke_all : ℕ → ℕ → String → ResetAction ℕ
revoke_all user_id now reason db =
    let (count, sessions) = revoke_all_for_user user_id now reason db.accounts.sessions in
    (ok count, record db { accounts = record (db.accounts) { sessions = sessions } })

abbrev pub normalized : Crypto → String → String
normalized c email = c.lower (c.strip email)

module _ (c : Crypto) (digest_token : String → String) (now : ℕ) where
  -- `confirm_reset` up to the check of the fingerprint: the token, and the user's credential.
  unfoldable pub reset_credential : String → ResetAction (PasswordResetToken × UserAuthRecord)
  unfolding require_usable_token
  reset_credential raw_token = do
    token ← found (λ db. get_by_digest (digest_token raw_token) db.tokens)
    require_usable_token now token
    user ← found (λ db. Users.get_by_id token.user_id db.accounts.users)
    refuse_if (not user.is_active) invalid_credential
    current ← found (λ db. get_auth_record_by_email (normalized c user.email) db.accounts.users)
    refuse_if (not (current.user.id == user.id)) invalid_credential
    refuse_if
        (not (
          str_eq (create_reauthentication_fingerprint c current.hashed_password)
            token.credential_fingerprint))
        invalid_credential
    pure (token, current)

  -- The rest of it.
  unfoldable pub apply_reset :
      (new_password replacement_hash : String)
      → PasswordResetToken × UserAuthRecord
      → ResetAction PasswordResetCompletionResult
  unfolding check_new_password replace_hash consume invalidate revoke_all
  apply_reset new_password replacement_hash (token, current) = do
    check_new_password new_password
    refuse_if (c.verify_password new_password current.hashed_password) password_rejected
    updated ← replace_hash now current.user.id current.hashed_password replacement_hash
    refuse_if (not updated) invalid_credential
    consumed ← consume token.id now
    refuse_if (not consumed) invalid_credential
    invalidate current.user.id now (some token.id)
    revoked ← revoke_all current.user.id now "password_reset"
    pure (record { user_id = current.user.id; revoked_sessions = revoked })

  unfoldable pub confirm_reset :
      (raw_token new_password replacement_hash : String) → ResetAction PasswordResetCompletionResult
  unfolding reset_credential apply_reset
  confirm_reset raw_token new_password replacement_hash =
      reset_credential raw_token >>= apply_reset new_password replacement_hash

  -- `request_reset`; `none` is an address that no active user has.
  unfoldable pub request_reset :
      (token_ttl token_id : ℕ)
      → (raw_token email : String) → ResetDb
      → Option PasswordResetIssueResult × ResetDb
  unfolding invalidate PasswordReset.create
  request_reset token_ttl token_id raw_token email db =
      elim (get_auth_record_by_email (normalized c email) db.accounts.users) [
        | none ↦ (none, db)
        | some row ↦
            if row.user.is_active
            then (let (_, db') = invalidate row.user.id now none db in
                let expires_at = now + token_ttl in
                let token : PasswordResetToken = record {
                  id = token_id;
                  user_id = row.user.id;
                  token_digest = digest_token raw_token;
                  credential_fingerprint =
                      create_reauthentication_fingerprint c row.hashed_password;
                  created_at = now;
                  expires_at = expires_at;
                  used_at = none;
                  invalidated_at = none;
                } in
                (
                  some (record {
                    user_id = row.user.id;
                    email = row.user.email;
                    raw_token = raw_token;
                    expires_at = expires_at;
                  }),
                  record db' { tokens = PasswordReset.create token db'.tokens },
                ))
            else (none, db)
      ]

-- A request, with what it draws.
pub data ResetRequest : Type 0 where
  request_request : (now token_ttl token_id : ℕ) → (raw_token email : String) → ResetRequest
  confirm_request : (now : ℕ) → (raw_token new_password replacement_hash : String) → ResetRequest

abbrev pub committed : ResetDb → Result ResetError PasswordResetCompletionResult × ResetDb → ResetDb
committed db (ok _, db') = db'
committed db (err _, db') = db

-- The transaction of a request: the error of a confirmation leaves the endpoint, and rolls it back.
unfoldable pub handle_reset : Crypto → (String → String) → ResetRequest → ResetDb → ResetDb
unfolding request_reset confirm_reset
handle_reset c digest_token (request_request now token_ttl token_id raw_token email) db =
    (request_reset c digest_token now token_ttl token_id raw_token email db).1
handle_reset c digest_token (confirm_request now raw_token new_password replacement_hash) db =
    committed db (confirm_reset c digest_token now raw_token new_password replacement_hash db)

unfoldable pub handle_resets : Crypto → (String → String) → List ResetRequest → ResetDb → ResetDb
handle_resets c digest_token [] db = db
handle_resets c digest_token (request ∷ requests) db =
    handle_resets c digest_token requests (handle_reset c digest_token request db)
