-- ===== src/Auth/Sessions.antt =====
-- backend/app/domain/auth_session.py and backend/app/repositories/sqlalchemy_auth_session_repository.py:
-- the table `auth_sessions`. A UUID is a number that is only compared, a datetime is a number of
-- microseconds; the table is the list of its rows.
pub mod Laws
pub mod Revocation
use opsflow.Prelude.{
  ℕ, suc, ◌+◌, Bool, true, false, not, ◌&&◌, String, Option, none, some, List, [], ◌∷◌, ◌++◌, ltb,
  leb, ◌==◌, if◌then◌else◌,
}

pub record AuthSession : Type 0 where
  pub id : ℕ
  pub user_id : ℕ
  pub current_jti : ℕ
  pub created_at : ℕ
  pub last_used_at : ℕ
  pub expires_at : ℕ
  pub revoked_at : Option ℕ
  pub revocation_reason : Option String

abbrev pub SessionTable : Type 0
SessionTable = List AuthSession

abbrev pub is_none {ℓ} : {A : Type ℓ} → Option A → Bool
is_none none = true
is_none (some _) = false

pub is_revoked : AuthSession → Bool
is_revoked s = not (is_none s.revoked_at)

pub is_expired : AuthSession → ℕ → Bool
is_expired s now = leb s.expires_at now

-- INSERT of a row; ids are fresh UUIDs.
unfoldable pub create : AuthSession → SessionTable → SessionTable
create session table = table ++ session ∷ []

-- `get_by_id` and `get_by_id_for_update`
unfoldable pub get_by_id : ℕ → SessionTable → Option AuthSession
get_by_id session_id [] = none
get_by_id session_id (row ∷ rows) =
    if row.id == session_id then some row else get_by_id session_id rows

-- UPDATE of the rows that a condition selects, and how many they are.
unfoldable pub update_where :
    (AuthSession → Bool) → (AuthSession → AuthSession) → SessionTable → SessionTable
update_where selected change [] = []
update_where selected change (row ∷ rows) =
    (if selected row then change row else row) ∷ update_where selected change rows

unfoldable pub rowcount : (AuthSession → Bool) → SessionTable → ℕ
rowcount selected [] = 0
rowcount selected (row ∷ rows) =
    let rest = rowcount selected rows in if selected row then rest + 1 else rest

unfoldable pub update_current_token : ℕ → ℕ → ℕ → SessionTable → SessionTable
update_current_token session_id jti now =
    update_where (λ row. row.id == session_id)
      (λ row. record row { current_jti = jti; last_used_at = now })

abbrev pub revoked_row : ℕ → String → AuthSession → AuthSession
revoked_row now reason row = record row { revoked_at = some now; revocation_reason = some reason }

unfoldable pub revoke : ℕ → ℕ → String → SessionTable → SessionTable
revoke session_id now reason =
    update_where (λ row. row.id == session_id && is_none row.revoked_at) (revoked_row now reason)

abbrev pub is_live_of : ℕ → AuthSession → Bool
is_live_of user_id row = row.user_id == user_id && is_none row.revoked_at

unfoldable pub revoke_all_for_user : ℕ → ℕ → String → SessionTable → ℕ × SessionTable
revoke_all_for_user user_id now reason table = (
  rowcount (is_live_of user_id) table,
  update_where (is_live_of user_id) (revoked_row now reason) table,
)

-- DELETE of the rows that expired before the cutoff, and how many they are.
unfoldable pub delete_expired_before : ℕ → SessionTable → ℕ × SessionTable
delete_expired_before cutoff [] = (0, [])
delete_expired_before cutoff (row ∷ rows) =
    let (count, rest) = delete_expired_before cutoff rows in
    if ltb row.expires_at cutoff then (count + 1, rest) else (count, row ∷ rest)
