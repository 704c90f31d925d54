-- ===== src/Auth/Sessions/Revocation.antt =====
-- Every session of a user at once: the rows that `revoke_all_for_user` of
-- backend/app/repositories/sqlalchemy_auth_session_repository.py writes, field by field.
use opsflow.Prelude.{
  ℕ, ◌+◌, ◌≡◌, refl, ◌&&◌, String, none, some, [], ◌∷◌, map, ◌==◌, arith, if◌then◌else◌,
}
use opsflow.Auth.Sessions.{
  AuthSession, SessionTable, is_none, is_live_of, revoked_row, update_where, rowcount,
  revoke_all_for_user,
}

-- The rows of a user, in the order of the table.
abbrev pub rows_of : ℕ → SessionTable → SessionTable
rows_of user [] = []
rows_of user (row ∷ rows) =
    let rest = rows_of user rows in if row.user_id == user then row ∷ rest else rest

-- The rows of all other users, in the order of the table.
abbrev pub rows_of_others : ℕ → SessionTable → SessionTable
rows_of_others user [] = []
rows_of_others user (row ∷ rows) =
    let rest = rows_of_others user rows in if row.user_id == user then rest else row ∷ rest

-- How many sessions of a user are live.
abbrev pub live_count : ℕ → SessionTable → ℕ
live_count user [] = 0
live_count user (row ∷ rows) =
    let rest = live_count user rows in
    if row.user_id == user && is_none row.revoked_at then rest + 1 else rest

-- A row that is revoked now, unless it was before: then it is left as it is.
abbrev pub closed : ℕ → String → AuthSession → AuthSession
closed now reason row = elim row.revoked_at [
  | none ↦ record row { revoked_at = some now; revocation_reason = some reason }
  | some t ↦ row
]

-- The rows of the user are closed, every row of another user is the one that it was, and the user has
-- no live session.
abbrev pub ClosesAll : ℕ → ℕ → String → SessionTable → SessionTable → Type 0
ClosesAll user now reason before after =
    (rows_of user after ≡ map (closed now reason) (rows_of user before))
    × (rows_of_others user after ≡ rows_of_others user before)
    × (live_count user after ≡ 0)

module _ (user now : ℕ) (reason : String) where
  own_rows :
      (table : SessionTable)
      → rows_of user (update_where (is_live_of user) (revoked_row now reason) table)
        ≡ map (closed now reason) (rows_of user table)
  unfolding update_where
  own_rows [] = refl
  own_rows (row ∷ rows) = ground (arith, own_rows rows)

  other_rows :
      (table : SessionTable)
      → rows_of_others user (update_where (is_live_of user) (revoked_row now reason) table)
        ≡ rows_of_others user table
  unfolding update_where
  other_rows [] = refl
  other_rows (row ∷ rows) = ground (arith, other_rows rows)

  live_after :
      (other : ℕ) (table : SessionTable)
      → live_count other (update_where (is_live_of user) (revoked_row now reason) table)
        ≡ (if other == user then 0 else live_count other table)
  unfolding update_where
  live_after other [] = ground arith
  live_after other (row ∷ rows) = ground (arith, live_after other rows)

  none_live :
      (table : SessionTable)
      → live_count user (update_where (is_live_of user) (revoked_row now reason) table) ≡ 0
  unfolding update_where
  none_live [] = refl
  none_live (row ∷ rows) = ground (arith, none_live rows)

  pub revoke_all_closes :
      (table : SessionTable)
      → ClosesAll user now reason table (revoke_all_for_user user now reason table).1
  unfolding revoke_all_for_user
  revoke_all_closes table = (own_rows table, other_rows table, none_live table)

  pub live_count-revoke_all :
      (other : ℕ) (table : SessionTable)
      → live_count other (revoke_all_for_user user now reason table).1
        ≡ (if other == user then 0 else live_count other table)
  unfolding revoke_all_for_user
  live_count-revoke_all other table = live_after other table

rowcount_live :
    (user : ℕ) (table : SessionTable) → rowcount (is_live_of user) table ≡ live_count user table
unfolding rowcount
rowcount_live user [] = refl
rowcount_live user (row ∷ rows) = ground (arith, rowcount_live user rows)

pub revoke_all_counts :
    (user now : ℕ) (reason : String) (table : SessionTable)
    → (revoke_all_for_user user now reason table).0 ≡ live_count user table
unfolding revoke_all_for_user
revoke_all_counts user now reason table = rowcount_live user table
