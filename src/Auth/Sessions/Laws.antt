-- ===== src/Auth/Sessions/Laws.antt =====
-- What the statements on the table `auth_sessions` do to the row with a given id.
use mathlib.Core.Option
use opsflow.Prelude.{
  ℕ, ◌≡◌, refl, Bool, ◌&&◌, String, none, some, [], ◌∷◌, ◌==◌, arith, if◌then◌else◌,
}
use opsflow.Auth.Sessions.{
  AuthSession, SessionTable, is_none, create, get_by_id, update_where, update_current_token, revoke,
  is_live_of, revoked_row, revoke_all_for_user,
}

-- The row after an update that a condition selects it for.
abbrev pub changed : (AuthSession → Bool) → (AuthSession → AuthSession) → AuthSession → AuthSession
changed selected change row = if selected row then change row else row

pub get_by_id-update_where :
    (selected : AuthSession → Bool) (change : AuthSession → AuthSession) (i : ℕ)
    (table : SessionTable)
    → ((row : AuthSession) → (change row).id ≡ row.id)
    → get_by_id i (update_where selected change table)
      ≡ Option.map (changed selected change) (get_by_id i table)
unfolding get_by_id update_where
get_by_id-update_where selected change i [] keeps = refl
get_by_id-update_where selected change i (row ∷ rows) keeps =
    ground (arith, keeps row, get_by_id-update_where selected change i rows keeps)

pub id-get_by_id :
    (i : ℕ) (table : SessionTable) {row : AuthSession} → get_by_id i table ≡ some row → row.id ≡ i
unfolding get_by_id
id-get_by_id i [] h = ground arith
id-get_by_id i (r ∷ rows) {row} h = ground (arith, id-get_by_id i rows {row = row})

pub get_by_id-update_current_token :
    (i j jti now : ℕ) (table : SessionTable)
    → get_by_id i (update_current_token j jti now table)
      ≡ Option.map
          (changed
            (λ row. row.id == j)
            (λ row. record row { current_jti = jti; last_used_at = now }))
          (get_by_id i table)
unfolding update_current_token
get_by_id-update_current_token i j jti now table = get_by_id-update_where _ _ i table (λ row. refl)

pub get_by_id-revoke :
    (i j now : ℕ) (reason : String) (table : SessionTable)
    → get_by_id i (revoke j now reason table)
      ≡ Option.map
          (changed (λ row. row.id == j && is_none row.revoked_at) (revoked_row now reason))
          (get_by_id i table)
unfolding revoke
get_by_id-revoke i j now reason table = get_by_id-update_where _ _ i table (λ row. refl)

pub get_by_id-revoke_all :
    (i user now : ℕ) (reason : String) (table : SessionTable)
    → get_by_id i (revoke_all_for_user user now reason table).1
      ≡ Option.map (changed (is_live_of user) (revoked_row now reason)) (get_by_id i table)
unfolding revoke_all_for_user
get_by_id-revoke_all i user now reason table = get_by_id-update_where _ _ i table (λ row. refl)

pub get_by_id-create :
    (i : ℕ) (session : AuthSession) (table : SessionTable)
    → get_by_id i (create session table) ≡ (elim (get_by_id i table) [
      | some row ↦ some row
      | none ↦ if session.id == i then some session else none
    ])
unfolding get_by_id create
get_by_id-create i session [] = refl
get_by_id-create i session (row ∷ rows) = ground (arith, get_by_id-create i session rows)
