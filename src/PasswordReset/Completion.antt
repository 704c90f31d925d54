-- ===== src/PasswordReset/Completion.antt =====
-- A reset that is completed.
use Prim.Native.String
use opsflow.Prelude.{
  ℕ, ◌+◌, ◌≤◌, ◌≡◌, refl, sym, ◌∙◌, ap, subst, true, false, ◌&&◌, String, some, [], ◌∷◌, ok, ◌==◌,
  arith, if◌then◌else◌,
}
use opsflow.Auth.Sessions.Revocation.{
  live_count, ClosesAll, revoke_all_closes, live_count-revoke_all, revoke_all_counts,
}
use opsflow.Auth.Tokens.{Crypto}
use opsflow.Auth.Users.{UserAuthRecord, update_password_hash_if_current}
use opsflow.PasswordReset.{
  PasswordResetToken, TokenTable, is_active, update_tokens, mark_used, invalidate_active_for_user,
}
use opsflow.PasswordReset.Service.{ResetDb, PasswordResetCompletionResult, confirm_reset}
use opsflow.PasswordReset.Inversion.{Usable, confirm_reset-inversion}

abbrev pub active_count : ℕ → TokenTable → ℕ
active_count user_id [] = 0
active_count user_id (token ∷ tokens) =
    if token.user_id == user_id && is_active token
    then active_count user_id tokens + 1
    else active_count user_id tokens

none_active :
    (user_id now token_id : ℕ) (table : TokenTable)
    → active_count user_id
        (invalidate_active_for_user user_id now (some token_id) (mark_used token_id now table).1).1
      ≡ 0
unfolding invalidate_active_for_user mark_used update_tokens
none_active user_id now token_id [] = refl
none_active user_id now token_id (t ∷ ts) = ground (arith, none_active user_id now token_id ts)

-- A reset that returns had a token that was active, not expired, and bound to the current password of
-- its user. The new password has 15 to 128 characters and is not the current one; its hash has replaced
-- the current one in exactly one row; and the user has no active reset token left. The number of revoked
-- sessions is that of the user's live sessions; each of these is revoked at that time and keeps its
-- other fields, and the user's sessions that were revoked before and every session of any other user
-- are as they were. So the user has no live session left, and every other user has as many as before.
pub reset_complete :
    (c : Crypto) (digest_token : String → String) (now : ℕ) (raw_token new hash : String)
    (db db' : ResetDb) (r : PasswordResetCompletionResult)
    → confirm_reset c digest_token now raw_token new hash db ≡ (ok r, db')
    → (token : PasswordResetToken) × (current : UserAuthRecord) × Usable c digest_token now
        raw_token db token current
      × (r.user_id ≡ current.user.id)
      × (15 ≤ String.count new)
      × (String.count new ≤ 128)
      × (c.verify_password new current.hashed_password ≡ false)
      × (update_password_hash_if_current now current.user.id current.hashed_password hash
            db.accounts.users
          ≡ (true, db'.accounts.users))
      × (active_count current.user.id db'.tokens ≡ 0)
      × (r.revoked_sessions ≡ live_count current.user.id db.accounts.sessions)
      × ClosesAll current.user.id now "password_reset" db.accounts.sessions db'.accounts.sessions
      × ((other : ℕ)
          → live_count other db'.accounts.sessions
            ≡ (if other == current.user.id then 0 else live_count other db.accounts.sessions))
reset_complete c digest_token now raw_token new hash db db' r h =
    let (token, current, usable, written) =
      confirm_reset-inversion c digest_token now raw_token new hash db db' r h in
    let (least, most, differs, set, user, used, tokens, revoked) = written in
    (
      token,
      current,
      usable,
      user,
      least,
      most,
      differs,
      set,
      ap (active_count current.user.id) tokens ∙ none_active current.user.id now token.id db.tokens,
      ap (λ p. p.0) revoked
          ∙ revoke_all_counts current.user.id now "password_reset" db.accounts.sessions,
      subst (ClosesAll current.user.id now "password_reset" db.accounts.sessions)
          (sym (ap (λ p. p.1) revoked))
          (revoke_all_closes current.user.id now "password_reset" db.accounts.sessions),
      λ other.
          ap (λ p. live_count other p.1) revoked
          ∙ live_count-revoke_all current.user.id now "password_reset" other db.accounts.sessions,
    )
