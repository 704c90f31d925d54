-- ===== src/PasswordReset.antt =====
-- backend/app/domain/password_reset_token.py and
-- backend/app/repositories/sqlalchemy_password_reset_token_repository.py: the table
-- `password_reset_tokens`, the list of its rows. The advisory lock of an issue makes it one step of the
-- table; a datetime is a number of microseconds.
pub mod Service
pub mod Inversion
pub mod Spent
pub mod SingleUse
pub mod Completion
pub mod Issue
use text.Mathlib.Text.{◌==◌ as str_eq}
use opsflow.Prelude.{
  ℕ, ◌+◌, Bool, true, false, not, ◌&&◌, String, Option, none, some, List, [], ◌∷◌, ◌++◌, ◌==◌,
  if◌then◌else◌,
}
use opsflow.Auth.Sessions.{is_none}

pub record PasswordResetToken : Type 0 where
  pub id : ℕ
  pub user_id : ℕ
  pub token_digest : String
  pub credential_fingerprint : String
  pub created_at : ℕ
  pub expires_at : ℕ
  pub used_at : Option ℕ
  pub invalidated_at : Option ℕ

abbrev pub TokenTable : Type 0
TokenTable = List PasswordResetToken

abbrev pub is_active : PasswordResetToken → Bool
is_active token = is_none token.used_at && is_none token.invalidated_at

-- `create`
unfoldable pub create : PasswordResetToken → TokenTable → TokenTable
create token table = table ++ token ∷ []

-- `get_by_digest_for_update`
unfoldable pub get_by_digest : String → TokenTable → Option PasswordResetToken
get_by_digest digest [] = none
get_by_digest digest (token ∷ tokens) =
    if str_eq token.token_digest digest then some token else get_by_digest digest tokens

-- The `UPDATE` of the rows that a condition selects, and how many they are.
unfoldable pub update_tokens :
    (PasswordResetToken → Bool)
    → (PasswordResetToken → PasswordResetToken)
    → TokenTable
    → ℕ × TokenTable
update_tokens selected change [] = (0, [])
update_tokens selected change (token ∷ tokens) =
    let (count, rest) = update_tokens selected change tokens in
    if selected token then (count + 1, change token ∷ rest) else (count, token ∷ rest)

-- `mark_used`: whether one row was still active.
unfoldable pub mark_used : ℕ → ℕ → TokenTable → Bool × TokenTable
unfolding update_tokens
mark_used token_id used_at table =
    let (count, table') =
      update_tokens (λ token. token.id == token_id && is_active token)
        (λ token. record token { used_at = some used_at }) table in
    (count == 1, table')

abbrev pub is_spared : Option ℕ → PasswordResetToken → Bool
is_spared none token = false
is_spared (some exclude_token_id) token = token.id == exclude_token_id

-- `invalidate_active_for_user`
unfoldable pub invalidate_active_for_user : ℕ → ℕ → Option ℕ → TokenTable → ℕ × TokenTable
unfolding update_tokens
invalidate_active_for_user user_id invalidated_at exclude_token_id table =
    update_tokens
      (λ token.
        (token.user_id == user_id && is_active token) && not (is_spared exclude_token_id token))
      (λ token. record token { invalidated_at = some invalidated_at }) table
