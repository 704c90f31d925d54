-- ===== src/PasswordReset/SingleUse.antt =====
-- A reset token that has been used.
use opsflow.Prelude.{
  ℕ, ◌≡◌, refl, sym, ◌∙◌, subst, ==_refl, true, ◌&&◌, String, some, List, ok, err, ◌==◌, arith,
}
use opsflow.Auth.Tokens.{Crypto}
use opsflow.PasswordReset.{PasswordResetToken, TokenTable, is_active, get_by_digest, mark_used}
use opsflow.PasswordReset.Service.{
  ResetDb, invalid_credential, PasswordResetCompletionResult, confirm_reset, ResetRequest,
  handle_resets,
}
use opsflow.PasswordReset.Inversion.{confirm_reset-inversion}
use opsflow.PasswordReset.Spent.{
  IsSpent, get_by_digest-update_tokens, invalidate-IsSpent, handle_resets-IsSpent,
  confirm_reset-spent,
}

mark_used-spends :
    (digest : String) (token : PasswordResetToken) (now : ℕ) (table : TokenTable)
    → get_by_digest digest table ≡ some token
    → is_active token ≡ true
    → IsSpent digest (mark_used token.id now table).1
unfolding mark_used
mark_used-spends digest token now table found active =
    let own = ==_refl token.id in
    (
      record token { used_at = some now },
      get_by_digest-update_tokens (λ t. t.id == token.id && is_active t)
            (λ t. record t { used_at = some now }) digest token table (λ t. refl) found
          ∙ ground arith,
      refl,
    )

-- After a confirmation that returns, whatever requests for resets and confirmations follow, a
-- confirmation with the same token is refused as an invalid credential and writes nothing.
pub used_token_refused :
    (c : Crypto) (digest_token : String → String) (now : ℕ) (raw_token new hash : String)
    (db db' : ResetDb) (r : PasswordResetCompletionResult) (requests : List ResetRequest)
    (later : ℕ) (new' hash' : String)
    → confirm_reset c digest_token now raw_token new hash db ≡ (ok r, db')
    → confirm_reset c digest_token later raw_token new' hash'
        (handle_resets c digest_token requests db')
      ≡ (err invalid_credential, handle_resets c digest_token requests db')
used_token_refused c digest_token now raw_token new hash db db' r requests later new' hash' h =
    let (token, current, usable, written) =
      confirm_reset-inversion c digest_token now raw_token new hash db db' r h in
    let spent = mark_used-spends (digest_token raw_token) token now db.tokens usable.0 usable.1 in
    confirm_reset-spent c digest_token later raw_token new' hash'
      (handle_resets c digest_token requests db')
      (handle_resets-IsSpent c digest_token requests (digest_token raw_token) db' (
        subst (IsSpent (digest_token raw_token)) (sym written.6) (
          invalidate-IsSpent (digest_token raw_token) current.user.id now (some token.id)
            (mark_used token.id now db.tokens).1 spent)))
