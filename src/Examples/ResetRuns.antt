-- ===== src/Examples/ResetRuns.antt =====
-- Runs of the theorems about password resets: a token is issued, used once, and tried again.
use Prim.Native.String
use Prim.Native.String.{◌++◌ as str_append}
use text.Mathlib.Text.{◌==◌ as str_eq}
use opsflow.Prelude.{
  ℕ, ◌≤◌, ◌≡◌, refl, true, false, String, none, some, List, [], ◌∷◌, ok, err, ◌==◌, if◌then◌else◌,
}
use opsflow.Auth.Sessions.{AuthSession, revoke_all_for_user, rowcount}
use opsflow.Auth.Sessions.Revocation.{live_count, ClosesAll}
use opsflow.Auth.Tokens.{Crypto, create_reauthentication_fingerprint}
use opsflow.Auth.Users
use opsflow.Auth.Users.{
  User, UserAuthRecord, get_auth_record_by_email, operator, update_password_hash_if_current,
}
use opsflow.PasswordReset.{PasswordResetToken, get_by_digest, mark_used, invalidate_active_for_user}
use opsflow.PasswordReset.Service.{
  ResetDb, invalid_credential, PasswordResetIssueResult, PasswordResetCompletionResult,
  request_reset, confirm_reset, ResetRequest, request_request, confirm_request, handle_resets,
}
use opsflow.PasswordReset.Inversion.{Usable}
use opsflow.PasswordReset.SingleUse.{used_token_refused}
use opsflow.PasswordReset.Issue.{replaced_token_refused}
use opsflow.PasswordReset.Completion.{active_count, reset_complete}

abbrev pub crypto : Crypto
crypto = record {
  encode_refresh = λ p. "refresh";
  decode_refresh = λ now token. none;
  encode_access = λ p. "access";
  decode_reauth = λ now token. none;
  uuid = λ s. none;
  uuid_text = λ n. "1";
  from_timestamp = λ seconds. some seconds;
  csrf_hmac = λ message. message;
  reauth_hmac = λ message. message;
  verify_password = λ password hash. str_eq (str_append "hash:" password) hash;
  strip = λ s. s;
  lower = λ s. s;
}

abbrev pub digest : String → String
digest raw = str_append "sha256:" raw

abbrev pub grace : UserAuthRecord
grace = record {
  user = record {
    id = 1;
    email = "grace@example.com";
    full_name = "Grace";
    role = operator;
    is_active = true;
    created_at = 0;
    updated_at = 0;
  };
  hashed_password = "hash:an old password!";
}

abbrev pub open_session : AuthSession
open_session = record {
  id = 2;
  user_id = 1;
  current_jti = 3;
  created_at = 0;
  last_used_at = 0;
  expires_at = 1000;
  revoked_at = none;
  revocation_reason = none;
}

abbrev before_request : ResetDb
before_request = record {
  accounts = record { users = grace ∷ []; sessions = open_session ∷ [] };
  tokens = [];
}

abbrev after_request : ResetDb
after_request = (request_reset crypto digest 10 100 7 "raw-7" "grace@example.com" before_request).1

abbrev new_password : String
new_password = "correct horse battery"

abbrev new_hash : String
new_hash = "hash:correct horse battery"

abbrev completed : PasswordResetCompletionResult
completed = record { user_id = 1; revoked_sessions = 1 }

abbrev after_confirmation : ResetDb
after_confirmation = (confirm_reset crypto digest 20 "raw-7" new_password new_hash after_request).1

confirmation :
    confirm_reset crypto digest 20 "raw-7" new_password new_hash after_request
    ≡ (ok completed, after_confirmation)
unfolding confirm_reset request_reset get_by_digest get_auth_record_by_email
    invalidate_active_for_user Users.get_by_id create_reauthentication_fingerprint
    update_password_hash_if_current mark_used revoke_all_for_user rowcount
confirmation = refl

abbrev later_requests : List ResetRequest
later_requests =
    request_request 30 100 8 "raw-8" "grace@example.com"
    ∷ confirm_request 40 "raw-8" "another long password" "hash:another long password"
    ∷ []

used_token_refused_example :
    confirm_reset crypto digest 50 "raw-7" "a third long password" "hash:a third long password"
      (handle_resets crypto digest later_requests after_confirmation)
    ≡ (err invalid_credential, handle_resets crypto digest later_requests after_confirmation)
used_token_refused_example =
    used_token_refused crypto digest 20 "raw-7" new_password new_hash after_request
      after_confirmation completed later_requests 50 "a third long password"
      "hash:a third long password" confirmation

abbrev first_token : PasswordResetToken
first_token = record {
  id = 7;
  user_id = 1;
  token_digest = "sha256:raw-7";
  credential_fingerprint = "opsflow-reauth-credential:hash:an old password!";
  created_at = 10;
  expires_at = 110;
  used_at = none;
  invalidated_at = none;
}

first_token_there : get_by_digest (digest "raw-7") after_request.tokens ≡ some first_token
unfolding get_by_digest request_reset create_reauthentication_fingerprint get_auth_record_by_email
    invalidate_active_for_user
first_token_there = refl

abbrev second_issue : PasswordResetIssueResult
second_issue = record {
  user_id = 1;
  email = "grace@example.com";
  raw_token = "raw-9";
  expires_at = 115;
}

abbrev after_second : ResetDb
after_second = (request_reset crypto digest 15 100 9 "raw-9" "grace@example.com" after_request).1

second_request :
    request_reset crypto digest 15 100 9 "raw-9" "grace@example.com" after_request
    ≡ (some second_issue, after_second)
unfolding request_reset get_auth_record_by_email
second_request = refl

replaced_token_refused_example :
    confirm_reset crypto digest 20 "raw-7" new_password new_hash
      (handle_resets crypto digest later_requests after_second)
    ≡ (err invalid_credential, handle_resets crypto digest later_requests after_second)
replaced_token_refused_example =
    replaced_token_refused crypto digest 15 100 9 "raw-9" "grace@example.com" after_request
      after_second second_issue "raw-7" first_token later_requests 20 new_password new_hash
      second_request first_token_there refl

reset_complete_example :
    (token : PasswordResetToken) × (current : UserAuthRecord) × Usable crypto digest 20 "raw-7"
      after_request token current
    × (completed.user_id ≡ current.user.id)
    × (15 ≤ String.count new_password)
    × (String.count new_password ≤ 128)
    × (crypto.verify_password new_password current.hashed_password ≡ false)
    × (update_password_hash_if_current 20 current.user.id current.hashed_password new_hash
          after_request.accounts.users
        ≡ (true, after_confirmation.accounts.users))
    × (active_count current.user.id after_confirmation.tokens ≡ 0)
    × (completed.revoked_sessions ≡ live_count current.user.id after_request.accounts.sessions)
    × ClosesAll current.user.id 20 "password_reset" after_request.accounts.sessions
        after_confirmation.accounts.sessions
    × ((other : ℕ)
        → live_count other after_confirmation.accounts.sessions ≡ (
            if other == current.user.id
            then 0
            else live_count other after_request.accounts.sessions))
reset_complete_example =
    reset_complete crypto digest 20 "raw-7" new_password new_hash after_request after_confirmation
      completed confirmation
