-- ===== src/Examples/MailRuns.antt =====
-- Runs of the theorems about a reset request through the interface and about a reauthentication.
use Prim.Native.String
use text.Mathlib.Text.{◌==◌ as str_eq}
use opsflow.Prelude.{
  ℕ, ◌≡◌, ◌⊎◌, refl, Bool, true, false, String, Option, none, some, List, [], ◌∷◌, Result, ok, err,
  ltb, arith, if◌then◌else◌,
}
use opsflow.Auth.Action.{Db, reauthentication_failed}
use opsflow.Auth.Users.{UserAuthRecord, get_auth_record_by_email}
use opsflow.Auth.Tokens.{Crypto, Payload, str, create_reauthentication_fingerprint}
use opsflow.Auth.Tokens.Proofs.{create_reauthentication_token}
use opsflow.Auth.Password.{change_password, replace_credential}
use opsflow.Auth.Resolve.{reauthenticate}
use opsflow.Throttle.Keys.{TextRuntime}
use opsflow.Throttle.Reset.{ResetThrottle, check_and_record}
use opsflow.PasswordReset.Service.{ResetDb}
use opsflow.Api.{answer}
use opsflow.Api.Resets.{
  Mail, client_error, ResetDraw, request_password_reset, accepted_response, throttled_response,
}
use opsflow.Api.Resets.Uniform.{IsSent, response_hides_account}
use opsflow.Api.Passwords.Proof.{IsReadBack, proof_follows_hash}
use opsflow.Examples.ResetRuns.{crypto, digest, grace}

-- A mail service that is down.
abbrev mail : Mail
mail = record { strip = λ s. s; url_with_token = λ raw. raw; send_email = λ message. client_error }

abbrev plain : TextRuntime
plain = record { strip = λ s. s; lower = λ s. s; hmac_sha256 = λ key message. message }

abbrev throttle : ResetThrottle
throttle = record {
  secret_key = "key";
  ip_max_requests = 5;
  ip_window_seconds = 60;
  account_max_requests = 3;
  account_window_seconds = 60;
  ip_requests = [];
  account_requests = [];
}

abbrev draw : ResetDraw
draw = record { attempt_time = 5; now = 5; token_id = 7; raw_token = "raw" }

abbrev rows : ResetDb
rows = record { accounts = record { users = grace ∷ []; sessions = [] }; tokens = [] }

response_hides_account_example :
    ((answer
        (request_password_reset mail plain crypto digest 900 draw none "grace@example.com"
          throttle).1
        rows).response
      ≡ (if (check_and_record plain 5 "unknown" "grace@example.com" throttle).0.allowed
          then accepted_response
          else throttled_response
              (check_and_record plain 5 "unknown" "grace@example.com" throttle).0))
    × (((answer
            (request_password_reset mail plain crypto digest 900 draw none "grace@example.com"
              throttle).1
            rows).state
          ≡ rows)
        ⊎ (((check_and_record plain 5 "unknown" "grace@example.com" throttle).0.allowed ≡ true)
            × IsSent mail plain crypto digest 900 draw none "grace@example.com" throttle rows
                (answer
                  (request_password_reset mail plain crypto digest 900 draw none "grace@example.com"
                    throttle).1
                  rows).state))
response_hides_account_example =
    response_hides_account mail plain crypto digest 900 draw none "grace@example.com" throttle rows
      refl (λ message. opsflow.Prelude.inr refl)

-- A proof that carries its fingerprint, which has 64 digits, and decodes until its lifetime ends.
abbrev proving : Crypto
proving = record crypto {
  reauth_hmac = λ message.
      if str_eq message "opsflow-reauth-credential:hash:an old password!"
      then "0123456789abcdef0123456789abcdef0123456789abcdef0123456789abcdef"
      else "fedcba9876543210fedcba9876543210fedcba9876543210fedcba9876543210";
  decode_reauth = λ now token.
      if ltb now 310
      then some (record {
        type = str "reauth";
        sub = str "1";
        sid = opsflow.Auth.Tokens.missing;
        jti = str "1";
        cv = str token;
        nbf = opsflow.Auth.Tokens.number 10;
        exp = opsflow.Auth.Tokens.number 310;
      })
      else none;
  uuid = λ s. some 1;
}

abbrev fingerprint_of : Payload → String
fingerprint_of p = elim p.cv [ str s ↦ s | _ ↦ "" ]

abbrev changed : Db
changed = record {
  users = (record grace { hashed_password = "hash:a newer password" }) ∷ [];
  sessions = [];
}

digits :
    (b : Bool)
    → String.count (
        if b
        then "0123456789abcdef0123456789abcdef0123456789abcdef0123456789abcdef"
        else "fedcba9876543210fedcba9876543210fedcba9876543210fedcba9876543210")
      ≡ 64
digits true = refl
digits false = refl

fingerprint_digits :
    (hash : String) → String.count (create_reauthentication_fingerprint proving hash) ≡ 64
unfolding create_reauthentication_fingerprint
fingerprint_digits hash = digits (
    str_eq (String.◌++◌ "opsflow-reauth-credential:" hash)
      "opsflow-reauth-credential:hash:an old password!")

read_back :
    (hash : String) (decoded : Payload)
    → proving.decode_reauth 20
        (create_reauthentication_token proving fingerprint_of 10 300 1 grace.user.id hash)
      ≡ some decoded
    → IsReadBack proving fingerprint_of 10 300 1 20 grace.user hash decoded
unfolding create_reauthentication_fingerprint create_reauthentication_token
read_back hash decoded h = (ground arith, ground arith, ground arith, ground arith)

proof_follows_hash_example :
    (row : UserAuthRecord) × (get_auth_record_by_email "grace@example.com" rows.accounts.users
      ≡ some row)
    × (true ≡ true)
    × (proving.verify_password "an old password!" row.hashed_password ≡ true)
    × (rows.accounts ≡ rows.accounts)
    × (change_password proving 20 grace.user
          "0123456789abcdef0123456789abcdef0123456789abcdef0123456789abcdef" "brand new password"
          "hash" changed
        ≡ (if str_eq
              (create_reauthentication_fingerprint proving "hash:a newer password")
              (create_reauthentication_fingerprint proving row.hashed_password)
            then replace_credential proving 20 grace.user "brand new password" "hash"
                (record grace { hashed_password = "hash:a newer password" })
                changed
            else (err reauthentication_failed, changed)))
unfolding reauthenticate get_auth_record_by_email
proof_follows_hash_example =
    proof_follows_hash proving fingerprint_of 10 300 1 20 grace.user refl refl fingerprint_digits
      read_back "an old password!"
      "0123456789abcdef0123456789abcdef0123456789abcdef0123456789abcdef" rows.accounts rows.accounts
      changed (record grace { hashed_password = "hash:a newer password" }) "brand new password"
      "hash" refl refl refl
