-- ===== src/PasswordReset/Spent.antt =====
-- Reset tokens that are used or invalidated stay so, and are refused.
use opsflow.Prelude.{
  ℕ, ◌+◌, ◌≡◌, refl, sym, ◌∙◌, subst, Bool, false, not, ◌&&◌, String, Option, none, some, List, [],
  ◌∷◌, Result, ok, err, ◌==◌, Bool-cases, inl, inr, arith, if◌then◌else◌,
}
use opsflow.Auth.Tokens.{Crypto, create_reauthentication_fingerprint}
use opsflow.Auth.Users.{get_auth_record_by_email, UserAuthRecord}
use opsflow.PasswordReset
use opsflow.PasswordReset.{
  PasswordResetToken, TokenTable, is_active, get_by_digest, update_tokens, mark_used,
  invalidate_active_for_user, is_spared,
}
use opsflow.PasswordReset.Service.{
  ResetDb, ResetError, invalid_credential, PasswordResetCompletionResult, require_usable_token,
  reset_credential, confirm_reset, normalized, request_reset, invalidate, ResetRequest,
  request_request, confirm_request, committed, handle_reset, handle_resets,
}
use opsflow.PasswordReset.Inversion.{confirm_reset-inversion}

-- The first token of a digest is no longer active.
abbrev pub IsSpent : String → TokenTable → Type 0
IsSpent digest table =
    (token : PasswordResetToken) × (get_by_digest digest table ≡ some token)
    × (is_active token ≡ false)

pub get_by_digest-create :
    (digest : String) (token new : PasswordResetToken) (table : TokenTable)
    → get_by_digest digest table ≡ some token
    → get_by_digest digest (PasswordReset.create new table) ≡ some token
unfolding get_by_digest PasswordReset.create
get_by_digest-create digest token new [] h = cc
get_by_digest-create digest token new (t ∷ ts) h =
    ground (arith, get_by_digest-create digest token new ts)

-- What an update makes of the first token of a digest.
pub get_by_digest-update_tokens :
    (selected : PasswordResetToken → Bool) (change : PasswordResetToken → PasswordResetToken)
    (digest : String) (token : PasswordResetToken) (table : TokenTable)
    → ((t : PasswordResetToken) → (change t).token_digest ≡ t.token_digest)
    → get_by_digest digest table ≡ some token
    → get_by_digest digest (update_tokens selected change table).1
      ≡ some (if selected token then change token else token)
unfolding get_by_digest update_tokens
get_by_digest-update_tokens selected change digest token [] keeps h = cc
get_by_digest-update_tokens selected change digest token (t ∷ ts) keeps h =
    ground (arith, keeps t, get_by_digest-update_tokens selected change digest token ts keeps)

pub invalidate-IsSpent :
    (digest : String) (user_id now : ℕ) (spared : Option ℕ) (table : TokenTable)
    → IsSpent digest table
    → IsSpent digest (invalidate_active_for_user user_id now spared table).1
unfolding invalidate_active_for_user
invalidate-IsSpent digest user_id now spared table (token, found, spent) = (
  token,
  get_by_digest-update_tokens
        (λ t. (t.user_id == user_id && is_active t) && not (is_spared spared t))
        (λ t. record t { invalidated_at = some now }) digest token table (λ t. refl) found
      ∙ ground arith,
  spent,
)

mark_used-IsSpent :
    (digest : String) (token_id now : ℕ) (table : TokenTable)
    → IsSpent digest table
    → IsSpent digest (mark_used token_id now table).1
unfolding mark_used
mark_used-IsSpent digest token_id now table (token, found, spent) = (
  token,
  get_by_digest-update_tokens (λ t. t.id == token_id && is_active t)
        (λ t. record t { used_at = some now }) digest token table (λ t. refl) found
      ∙ ground arith,
  spent,
)

module _ (c : Crypto) (digest_token : String → String) where
  request_reset-IsSpent :
      (now token_ttl token_id : ℕ) (raw_token email digest : String) (db : ResetDb)
      → IsSpent digest db.tokens
      → IsSpent digest
          (request_reset c digest_token now token_ttl token_id raw_token email db).1.tokens
  unfolding request_reset invalidate
  request_reset-IsSpent now token_ttl token_id raw_token email digest db spent =
      by_row (get_auth_record_by_email (normalized c email) db.accounts.users) refl
    where
      appended :
          (token : PasswordResetToken) (table : TokenTable)
          → IsSpent digest table
          → IsSpent digest (PasswordReset.create token table)
      appended token table (old, found, gone) =
          (old, get_by_digest-create digest old token table found, gone)

      by_row :
          (row : Option UserAuthRecord)
          → get_auth_record_by_email (normalized c email) db.accounts.users ≡ row
          → IsSpent digest
              (request_reset c digest_token now token_ttl token_id raw_token email db).1.tokens
      by_row none e = rw (e, request_reset) spent
      by_row (some row) e = elim (Bool-cases row.user.is_active) [
        | inl active ↦
            rw (e, request_reset)
              (rw active (
                appended
                  (record {
                    id = token_id;
                    user_id = row.user.id;
                    token_digest = digest_token raw_token;
                    credential_fingerprint =
                        create_reauthentication_fingerprint c row.hashed_password;
                    created_at = now;
                    expires_at = now + token_ttl;
                    used_at = none;
                    invalidated_at = none;
                  })
                  (invalidate_active_for_user row.user.id now none db.tokens).1
                  (invalidate-IsSpent digest row.user.id now none db.tokens spent)))
        | inr inactive ↦ rw (e, request_reset) (rw inactive spent)
      ]

  handle_reset-IsSpent :
      (request : ResetRequest) (digest : String) (db : ResetDb)
      → IsSpent digest db.tokens
      → IsSpent digest (handle_reset c digest_token request db).tokens
  unfolding handle_reset
  handle_reset-IsSpent (request_request now token_ttl token_id raw_token email) digest db spent =
      request_reset-IsSpent now token_ttl token_id raw_token email digest db spent
  handle_reset-IsSpent (confirm_request now raw_token new hash) digest db spent =
      by_result (confirm_reset c digest_token now raw_token new hash db).0
        (confirm_reset c digest_token now raw_token new hash db).1 refl
    where
      by_result :
          (r : Result ResetError PasswordResetCompletionResult) (db' : ResetDb)
          → confirm_reset c digest_token now raw_token new hash db ≡ (r, db')
          → IsSpent digest (committed db (r, db')).tokens
      by_result (err e) db' h = spent
      by_result (ok r) db' h =
          let (token, current, usable, written) =
            confirm_reset-inversion c digest_token now raw_token new hash db db' r h in
          subst (IsSpent digest) (sym written.6) (
            invalidate-IsSpent digest current.user.id now (some token.id)
              (mark_used token.id now db.tokens).1
              (mark_used-IsSpent digest token.id now db.tokens spent))

  pub handle_resets-IsSpent :
      (requests : List ResetRequest) (digest : String) (db : ResetDb)
      → IsSpent digest db.tokens
      → IsSpent digest (handle_resets c digest_token requests db).tokens
  unfolding handle_resets
  handle_resets-IsSpent [] digest db spent = spent
  handle_resets-IsSpent (request ∷ requests) digest db spent =
      handle_resets-IsSpent requests digest (handle_reset c digest_token request db)
        (handle_reset-IsSpent request digest db spent)

  -- A confirmation with a spent token is refused, and writes nothing.
  pub confirm_reset-spent :
      (now : ℕ) (raw_token new hash : String) (db : ResetDb)
      → IsSpent (digest_token raw_token) db.tokens
      → confirm_reset c digest_token now raw_token new hash db ≡ (err invalid_credential, db)
  unfolding confirm_reset reset_credential require_usable_token
  confirm_reset-spent now raw_token new hash db (token, found, gone) = ground arith
