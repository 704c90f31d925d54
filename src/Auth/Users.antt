-- ===== src/Auth/Users.antt =====
-- backend/app/domain/user.py and backend/app/repositories/sqlalchemy_user_repository.py: the table
-- `users`, as the authentication service uses it.
use text.Mathlib.Text.{◌==◌ as str_eq}
use opsflow.Prelude.{
  ℕ, ◌+◌, ◌≡◌, arith, Bool, ◌&&◌, String, Option, none, some, List, [], ◌∷◌, ◌==◌, if◌then◌else◌,
}

pub data UserRole : Type 0 where
  viewer operator admin : UserRole

pub record User : Type 0 where
  pub id : ℕ
  pub email : String
  pub full_name : String
  pub role : UserRole
  pub is_active : Bool
  pub created_at : ℕ
  pub updated_at : ℕ

pub record UserAuthRecord : Type 0 where
  pub user : User
  pub hashed_password : String

-- A row of the table holds what an authentication record holds.
abbrev pub UserTable : Type 0
UserTable = List UserAuthRecord

unfoldable pub get_by_id : ℕ → UserTable → Option User
get_by_id user_id [] = none
get_by_id user_id (row ∷ rows) =
    if row.user.id == user_id then some row.user else get_by_id user_id rows

unfoldable pub get_auth_record_by_email : String → UserTable → Option UserAuthRecord
get_auth_record_by_email email [] = none
get_auth_record_by_email email (row ∷ rows) =
    if str_eq row.user.email email then some row else get_auth_record_by_email email rows

abbrev pub is_current : ℕ → String → UserAuthRecord → Bool
is_current user_id expected row = row.user.id == user_id && str_eq row.hashed_password expected

abbrev pub with_password : ℕ → String → UserAuthRecord → UserAuthRecord
with_password now replacement row = record row {
  hashed_password = replacement;
  user = record (row.user) { updated_at = now };
}

unfoldable pub set_password : ℕ → ℕ → String → String → UserTable → ℕ × UserTable
set_password now user_id expected replacement [] = (0, [])
set_password now user_id expected replacement (row ∷ rows) =
    let (count, rest) = set_password now user_id expected replacement rows in
    if is_current user_id expected row
    then (count + 1, with_password now replacement row ∷ rest)
    else (count, row ∷ rest)

-- The compare-and-set of the password hash, and whether it changed one row.
unfoldable pub update_password_hash_if_current :
    ℕ → ℕ → String → String → UserTable → Bool × UserTable
unfolding set_password
update_password_hash_if_current now user_id expected replacement table =
    let (count, table') = set_password now user_id expected replacement table in
    (count == 1, table')

pub id-get_by_id :
    (user_id : ℕ) (table : UserTable) (user : User)
    → get_by_id user_id table ≡ some user
    → user.id ≡ user_id
unfolding get_by_id
id-get_by_id user_id [] user h = cc
id-get_by_id user_id (row ∷ rows) user h = ground (arith, id-get_by_id user_id rows user)
