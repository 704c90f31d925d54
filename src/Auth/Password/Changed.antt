-- ===== src/Auth/Password/Changed.antt =====
-- A password change that returns.
use Prim.Native.String
use opsflow.Prelude.{
  ℕ, ◌≤◌, ◌≡◌, refl, sym, ap, ◌∙◌, subst, true, false, String, Option, none, some, ok, ◌==◌, arith,
  if◌then◌else◌,
}
use opsflow.Auth.Action.{Db, >>=-inversion}
use opsflow.Auth.Users.{
  User, UserAuthRecord, get_auth_record_by_email, set_password, update_password_hash_if_current,
}
use opsflow.Auth.Tokens.{
  Crypto, ReauthenticationClaims, decode_reauthentication_token,
  reauthentication_credential_matches,
}
use opsflow.Auth.Sessions.{revoke_all_for_user}
use opsflow.Auth.Service.{require_active_user, revoke_all}
use opsflow.Auth.Sessions.Revocation.{
  live_count, ClosesAll, revoke_all_closes, live_count-revoke_all, revoke_all_counts,
}
use opsflow.Auth.Password.{
  PasswordChangeResult, validate_new_password, replace_hash, current_credential, replace_credential,
  change_password,
}

-- An active user has proved with a reauthentication token that the credential is still the current
-- one.
abbrev pub Proven : Crypto → ℕ → User → String → UserAuthRecord → Type 0
Proven c now user token current =
    (claims : ReauthenticationClaims) × (decode_reauthentication_token c now token ≡ some claims)
    × (user.is_active ≡ true)
    × (claims.user_id ≡ user.id)
    × (current.user.id ≡ user.id)
    × (reauthentication_credential_matches c current.hashed_password claims.credential_fingerprint
        ≡ true)

current_credential-inversion :
    (c : Crypto) (now : ℕ) (user : User) (token : String) (db db' : Db) (current : UserAuthRecord)
    → current_credential c now user token db ≡ (ok current, db')
    → (db ≡ db') × Proven c now user token current
unfolding current_credential require_active_user
current_credential-inversion c now user token db db' current h =
    from (decode_reauthentication_token c now token)
      (get_auth_record_by_email (c.lower (c.strip user.email)) db.users) refl refl
  where
    from :
        (decoded : Option ReauthenticationClaims) (found : Option UserAuthRecord)
        → decode_reauthentication_token c now token ≡ decoded
        → get_auth_record_by_email (c.lower (c.strip user.email)) db.users ≡ found
        → (db ≡ db') × Proven c now user token current
    from none found d f = ground arith
    from (some claims) none d f = ground arith
    from (some claims) (some row) d f =
        (ground arith, (claims, d, ground arith, ground arith, ground arith, ground arith))

-- What is stored: a hash in place of the current one in one row, and the user's sessions revoked.
abbrev pub Stored :
    Crypto → ℕ → User → String → String → UserAuthRecord → Db → PasswordChangeResult → Db → Type 0
Stored c now user new hash current db r db' =
    (15 ≤ String.count new)
    × (String.count new ≤ 128)
    × (c.verify_password new current.hashed_password ≡ false)
    × (set_password now user.id current.hashed_password hash db.users ≡ (1, db'.users))
    × ((r.revoked_sessions, db'.sessions)
        ≡ revoke_all_for_user user.id now "password_changed" db.sessions)

replace_credential-inversion :
    (c : Crypto) (now : ℕ) (user : User) (new hash : String) (current : UserAuthRecord)
    (db db' : Db) (r : PasswordChangeResult)
    → replace_credential c now user new hash current db ≡ (ok r, db')
    → Stored c now user new hash current db r db'
unfolding replace_credential validate_new_password replace_hash revoke_all
    update_password_hash_if_current
replace_credential-inversion c now user new hash current db db' r h =
    (ground arith, ground arith, ground arith, ground arith, ground arith)

-- A password change that returns was proved by a reauthentication token for the current credential.
-- The new password has 15 to 128 characters and is not the current one, and its hash has replaced the
-- current one in exactly one row. The number of revoked sessions is that of the user's live sessions;
-- each of these is revoked at that time and keeps its other fields, and the user's sessions that were
-- revoked before and every session of any other user are as they were. So the user has no live session
-- left, and every other user has as many as before.
pub password_change_complete :
    (c : Crypto) (now : ℕ) (user : User) (token new hash : String) (db db' : Db)
    (r : PasswordChangeResult)
    → change_password c now user token new hash db ≡ (ok r, db')
    → (current : UserAuthRecord) × Proven c now user token current
      × (15 ≤ String.count new)
      × (String.count new ≤ 128)
      × (c.verify_password new current.hashed_password ≡ false)
      × (set_password now user.id current.hashed_password hash db.users ≡ (1, db'.users))
      × (r.revoked_sessions ≡ live_count user.id db.sessions)
      × ClosesAll user.id now "password_changed" db.sessions db'.sessions
      × ((other : ℕ)
          → live_count other db'.sessions
            ≡ (if other == user.id then 0 else live_count other db.sessions))
unfolding change_password
password_change_complete c now user token new hash db db' r h =
    let (current, mid, checked, stored) =
      >>=-inversion (current_credential c now user token) (replace_credential c now user new hash)
        db db' r h in
    let (same, proven) = current_credential-inversion c now user token db mid current checked in
    let (least, most, differs, set, revoked) =
      replace_credential-inversion c now user new hash current db db' r (
        subst (λ d. replace_credential c now user new hash current d ≡ (ok r, db')) (sym same)
          stored) in
    (
      current,
      proven,
      least,
      most,
      differs,
      set,
      ap (λ p. p.0) revoked ∙ revoke_all_counts user.id now "password_changed" db.sessions,
      subst (ClosesAll user.id now "password_changed" db.sessions) (sym (ap (λ p. p.1) revoked))
          (revoke_all_closes user.id now "password_changed" db.sessions),
      λ other.
          ap (λ p. live_count other p.1) revoked
          ∙ live_count-revoke_all user.id now "password_changed" other db.sessions,
    )
