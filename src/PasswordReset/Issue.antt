-- ===== src/PasswordReset/Issue.antt =====
-- A reset token that a later request replaces.
use opsflow.Prelude.{
  ℕ, ◌+◌, ◌≡◌, refl, sym, ◌∙◌, ap, ==_refl, not, ◌&&◌, String, Option, none, some, List, err, ◌==◌,
  arith, Bool-cases, inl, inr,
}
use opsflow.Auth.Tokens.{Crypto, create_reauthentication_fingerprint}
use opsflow.Auth.Users.{get_auth_record_by_email, UserAuthRecord}
use opsflow.PasswordReset
use opsflow.PasswordReset.{
  PasswordResetToken, TokenTable, is_active, is_spared, get_by_digest, invalidate_active_for_user,
}
use opsflow.PasswordReset.Service.{
  ResetDb, invalid_credential, PasswordResetIssueResult, request_reset, invalidate, confirm_reset,
  ResetRequest, handle_resets, normalized,
}
use opsflow.PasswordReset.Spent.{
  IsSpent, get_by_digest-update_tokens, get_by_digest-create, handle_resets-IsSpent,
  confirm_reset-spent,
}

invalidate-spends :
    (digest : String) (token : PasswordResetToken) (now : ℕ) (table : TokenTable)
    → get_by_digest digest table ≡ some token
    → IsSpent digest (invalidate_active_for_user token.user_id now none table).1
unfolding invalidate_active_for_user
invalidate-spends digest token now table found =
    let own = ==_refl token.user_id in
    let selected = λ (t : PasswordResetToken).
      (t.user_id == token.user_id && is_active t) && not (is_spared none t) in
    let after =
      get_by_digest-update_tokens selected (λ t. record t { invalidated_at = some now }) digest
        token table (λ t. refl) found in
    elim (Bool-cases (is_active token)) [
      | inl active ↦
          (record token { invalidated_at = some now }, after ∙ ground arith, ground arith)
      | inr gone ↦ (token, after ∙ ground arith, gone)
    ]

-- After a request that issues a token for a user, whatever requests follow, a confirmation with a token
-- that the user had before is refused as an invalid credential and writes nothing.
pub replaced_token_refused :
    (c : Crypto) (digest_token : String → String) (now token_ttl token_id : ℕ)
    (raw_token email : String) (db db' : ResetDb) (r : PasswordResetIssueResult) (old_raw : String)
    (old : PasswordResetToken) (requests : List ResetRequest) (later : ℕ) (new hash : String)
    → request_reset c digest_token now token_ttl token_id raw_token email db ≡ (some r, db')
    → get_by_digest (digest_token old_raw) db.tokens ≡ some old
    → old.user_id ≡ r.user_id
    → confirm_reset c digest_token later old_raw new hash
        (handle_resets c digest_token requests db')
      ≡ (err invalid_credential, handle_resets c digest_token requests db')
unfolding request_reset invalidate
replaced_token_refused c digest_token now token_ttl token_id raw_token email db db' r old_raw old
      requests later new hash h found own =
    confirm_reset-spent c digest_token later old_raw new hash
      (handle_resets c digest_token requests db')
      (handle_resets-IsSpent c digest_token requests (digest_token old_raw) db'
        (by_row (get_auth_record_by_email (normalized c email) db.accounts.users) refl))
  where
    by_row :
        (row : Option UserAuthRecord)
        → get_auth_record_by_email (normalized c email) db.accounts.users ≡ row
        → IsSpent (digest_token old_raw) db'.tokens
    by_row none e = absurd (ground arith)
    by_row (some row) e =
        let token : PasswordResetToken = record {
          id = token_id;
          user_id = row.user.id;
          token_digest = digest_token raw_token;
          credential_fingerprint = create_reauthentication_fingerprint c row.hashed_password;
          created_at = now;
          expires_at = now + token_ttl;
          used_at = none;
          invalidated_at = none;
        } in
        let same : old.user_id ≡ row.user.id = ground arith in
        let (t, there, gone) = invalidate-spends (digest_token old_raw) old now db.tokens found in
        let written : db'.tokens
            ≡ PasswordReset.create token
                (invalidate_active_for_user row.user.id now none db.tokens).1 =
          ground arith in
        let there' =
          ap
            (λ u.
              get_by_digest (digest_token old_raw)
                (invalidate_active_for_user u now none db.tokens).1)
            (sym same)
          ∙ there in
        (
          t,
          ap (get_by_digest (digest_token old_raw)) written
              ∙ get_by_digest-create (digest_token old_raw) t token
                  (invalidate_active_for_user row.user.id now none db.tokens).1 there',
          gone,
        )
