-- ===== src/Api/Registration.antt =====
-- backend/app/api/routes/auth.py: `register_account`, with services/user_service.py and `add` and
-- `get_by_email` of repositories/sqlalchemy_user_repository.py. The hash with its random salt, the new
-- id and the time are arguments; the unique index on the address is not modelled, since a request is one
-- step.
pub mod FirstLogin
use Prim.Native.Char.{code}
use Prim.Native.String
use text.Mathlib.Text.{◌==◌ as str_eq}
use opsflow.Prelude.{
  ℕ, true, String, Option, none, some, List, [], ◌∷◌, ◌++◌, Result, ok, err, ◌==◌, if◌then◌else◌,
}
use opsflow.Auth.Action.{Db}
use opsflow.Auth.Users.{UserRole, viewer, User, UserAuthRecord, UserTable, get_auth_record_by_email}
use opsflow.Auth.Tokens.{Crypto}
use opsflow.Execution.{first_characters}
use opsflow.Api.{current, detail, respond, returns, raises_http, Handler}

-- `get_by_email`
unfoldable pub get_by_email : String → UserTable → Option User
get_by_email email table = elim (get_auth_record_by_email email table) [
  | none ↦ none
  | some row ↦ some row.user
]

-- `add`, at the end of the table
unfoldable pub add : UserAuthRecord → UserTable → UserTable
add row table = table ++ row ∷ []

-- What is drawn for a new user.
pub record NewUser : Type 0 where
  pub id : ℕ
  pub now : ℕ
  pub hashed_password : String

-- The text up to the first "@".
unfoldable pub before_at : String → String
before_at String.[] = ""
before_at (String.◌∷◌ ch rest) = if code ch == b'@' then "" else String.◌∷◌ ch (before_at rest)

module _ (c : Crypto) where
  -- `create_user`; `none` is `UserAlreadyExistsError`.
  unfoldable pub create_user :
      NewUser → (email full_name : String) → UserRole → UserTable → Option (User × UserTable)
  unfolding get_by_email add
  create_user draw email full_name role table =
      let normalized_email = c.lower (c.strip email) in
      elim (get_by_email normalized_email table) [
        | some _ ↦ none
        | none ↦
            let user : User = record {
              id = draw.id;
              email = normalized_email;
              full_name = c.strip full_name;
              role = role;
              is_active = true;
              created_at = draw.now;
              updated_at = draw.now;
            } in
            some (user, add (record { user = user; hashed_password = draw.hashed_password }) table)
      ]

  -- The display name of an address.
  unfoldable pub display_name : String → String
  unfolding before_at
  display_name normalized_email =
      let local_part = c.strip (before_at normalized_email) in
      if str_eq local_part "" then "OpsFlow User" else first_characters 120 local_part

  unfoldable pub register_account : NewUser → String → Handler Db
  unfolding create_user display_name
  register_account draw email db =
      let normalized_email = c.lower (c.strip email) in
      elim (create_user draw normalized_email (display_name normalized_email) viewer db.users) [
        | none ↦ (raises_http (respond 409 detail []), [], db)
        | some (user, users) ↦
            (returns (respond 201 (current user) []), [], record db { users = users })
      ]
