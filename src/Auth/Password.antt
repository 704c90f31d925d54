-- ===== src/Auth/Password.antt =====
-- backend/app/services/authentication_service.py: `change_password`, and
-- backend/app/core/password_policy.py. The hash that `hash_password` makes of the new password, with
-- its random salt, is an argument.
pub mod Changed
use Prim.Native.String
use opsflow.Prelude.{ℕ, Bool, not, String, Option, ok, ltb, ◌==◌, if◌then◌else◌}
use opsflow.Auth.Action.{
  Db, reauthentication_failed, password_change_refused, Action, ◌>>=◌, ◌>>◌, pure, or_raise, gets,
  raise_if,
}
use opsflow.Auth.Users.{
  User, UserAuthRecord, get_auth_record_by_email, update_password_hash_if_current,
}
use opsflow.Auth.Tokens.{Crypto, decode_reauthentication_token, reauthentication_credential_matches}
use opsflow.Auth.Service.{require_active_user, revoke_all}

pub record PasswordChangeResult : Type 0 where
  pub user_id : ℕ
  pub revoked_sessions : ℕ

abbrev pub password_min_length : ℕ
password_min_length = 15

abbrev pub password_max_length : ℕ
password_max_length = 128

-- `validate_new_password`, whose violation the service raises as its own error.
unfoldable pub validate_new_password : String → Action (Unit {0})
validate_new_password password = do
  raise_if (ltb (String.count password) password_min_length) password_change_refused
  raise_if (ltb password_max_length (String.count password)) password_change_refused

-- The compare-and-set of the hash, as a statement that returns whether it changed one row.
unfoldable pub replace_hash : ℕ → ℕ → String → String → Action Bool
replace_hash now user_id expected replacement db =
    let (updated, users) =
      update_password_hash_if_current now user_id expected replacement db.users in
    (ok updated, record db { users = users })

module _ (c : Crypto) (now : ℕ) (user : User) where
  -- `change_password` up to the check of the proof: the current credential.
  unfoldable pub current_credential : String → Action UserAuthRecord
  unfolding require_active_user
  current_credential reauth_token = do
    require_active_user user
    claims ← or_raise (decode_reauthentication_token c now reauth_token) reauthentication_failed
    raise_if (not (claims.user_id == user.id)) reauthentication_failed
    found ← gets (λ db. get_auth_record_by_email (c.lower (c.strip user.email)) db.users)
    current ← or_raise found reauthentication_failed
    raise_if (not (current.user.id == user.id)) reauthentication_failed
    raise_if
        (not (
          reauthentication_credential_matches c current.hashed_password
            claims.credential_fingerprint))
        reauthentication_failed
    pure current

  -- The rest of it.
  unfoldable pub replace_credential :
      (new_password replacement_hash : String) → UserAuthRecord → Action PasswordChangeResult
  unfolding validate_new_password replace_hash revoke_all
  replace_credential new_password replacement_hash current = do
    validate_new_password new_password
    raise_if (c.verify_password new_password current.hashed_password) password_change_refused
    updated ← replace_hash now user.id current.hashed_password replacement_hash
    raise_if (not updated) reauthentication_failed
    revoked ← revoke_all user.id now "password_changed"
    pure (record { user_id = user.id; revoked_sessions = revoked })

  unfoldable pub change_password :
      (reauth_token new_password replacement_hash : String) → Action PasswordChangeResult
  unfolding current_credential replace_credential
  change_password reauth_token new_password replacement_hash =
      current_credential reauth_token >>= replace_credential new_password replacement_hash
