-- ===== src/Examples/AuthRuns.antt =====
-- Runs of the authentication service on two sessions, with readable stand-ins for the cryptography.
use Prim.Native.String.{◌++◌ as str_append}
use text.Mathlib.Text.{◌==◌ as str_eq}
use text.Mathlib.TextEquality.{eq_iff}
use opsflow.Prelude.{
  ◌≤◌, ℕ, ◌*◌, ◌≡◌, ◌≢◌, refl, true, false, String, Option, none, some, [], ◌∷◌, Result, ok, leb,
  ◌==◌, arith, if◌then◌else◌,
}
use opsflow.Auth.Action.{Db, invalid_credentials, refresh_token_reuse}
use opsflow.Auth.Sessions
use opsflow.Auth.Sessions.{AuthSession}
use opsflow.Auth.Password.{PasswordChangeResult, change_password}
use opsflow.Auth.Password.Changed.{Proven, password_change_complete}
use opsflow.Auth.Users.{UserAuthRecord, set_password, User, operator}
use opsflow.Auth.Tokens.{
  Crypto, Payload, missing, str, number, datetime, RefreshTokenClaims, decode_refresh_token,
  csrf_signature, create_csrf_token, validate_csrf_token,
}
use opsflow.Auth.Tokens.Roundtrip.{csrf_round_trip}
use opsflow.Auth.Service.{
  Lifetimes, RefreshRotationResult, rotate_refresh_token_with_csrf, revoke_all_sessions_for_user,
}
use opsflow.Auth.Refresh.{csrf_holds}
use opsflow.Auth.Moves.{Moved, rotation_moves}
use opsflow.Auth.Sessions.Revocation.{live_count, ClosesAll}
use opsflow.Auth.Revoked.{revoke_all_complete}

-- The payload of the one refresh token "token-3": user 1, session 2, token 3.
abbrev pub payload : Payload
payload = record {
  type = str "refresh";
  sub = str "1";
  sid = str "2";
  jti = str "3";
  cv = missing;
  nbf = number 0;
  exp = number 1000;
}

abbrev pub crypto : Crypto
crypto = record {
  encode_refresh = λ p. "refresh";
  decode_refresh = λ now token. if str_eq token "token-3" then some payload else none;
  encode_access = λ p. "access";
  decode_reauth = λ now token. none;
  uuid = λ s.
      if str_eq s "1"
      then some 1
      else if str_eq s "2"
      then some 2
      else if str_eq s "3"
      then some 3
      else none;
  uuid_text = λ n. if n == 1 then "1" else if n == 2 then "2" else "3";
  from_timestamp = λ seconds. some (seconds * 1000000);
  csrf_hmac = λ message. str_append "hmac:" message;
  reauth_hmac = λ message. message;
  verify_password = λ password hash. str_eq password hash;
  strip = λ s. s;
  lower = λ s. s;
}

abbrev pub lifetimes : Lifetimes
lifetimes = record { refresh_token = 1000000000; access_token = 900000000 }

abbrev pub ada : User
ada = record {
  id = 1;
  email = "ada@example.com";
  full_name = "Ada";
  role = operator;
  is_active = true;
  created_at = 0;
  updated_at = 0;
}

abbrev pub session : AuthSession
session = record {
  id = 2;
  user_id = 1;
  current_jti = 3;
  created_at = 0;
  last_used_at = 0;
  expires_at = 1000000000;
  revoked_at = none;
  revocation_reason = none;
}

abbrev pub db : Db
db = record {
  users = (record { user = ada; hashed_password = "hash" }) ∷ [];
  sessions = (record session { id = 9; user_id = 7 }) ∷ session ∷ [];
}

abbrev csrf : Option String
csrf = some "nonce.hmac:2:nonce"

abbrev pub claims : RefreshTokenClaims
claims = record { user_id = 1; session_id = 2; token_id = 3; expires_at = 1000000000 }

abbrev rotate : ℕ → ℕ → Db → Result opsflow.Auth.Action.AuthError RefreshRotationResult × Db
rotate now replacement =
    rotate_refresh_token_with_csrf crypto lifetimes now replacement 50 "token-3" csrf csrf

abbrev rotated : RefreshRotationResult
rotated = record {
  access_token = "access";
  refresh_token = "refresh";
  user = ada;
  session_id = 2;
  previous_refresh_token_id = 3;
  refresh_token_id = 4;
}

abbrev db_rotated : Db
db_rotated = record db {
  sessions =
      (record session { id = 9; user_id = 7 })
      ∷ (record session { current_jti = 4; last_used_at = 10 })
      ∷ [];
}

rotate_runs : rotate 10 4 db ≡ (ok rotated, db_rotated)
unfolding rotate_refresh_token_with_csrf decode_refresh_token validate_csrf_token csrf_signature
    Sessions.get_by_id opsflow.Auth.Users.get_by_id opsflow.Auth.Tokens.create_access_token
    opsflow.Auth.Tokens.create_refresh_token Sessions.update_current_token Sessions.update_where
rotate_runs = refl

rotation_moves_example :
    (from : RefreshTokenClaims) × (decode_refresh_token crypto 10 "token-3" ≡ some from)
    × (csrf_holds crypto from.session_id csrf csrf ≡ true)
    × Moved crypto 10 4 from rotated db db_rotated
rotation_moves_example =
    rotation_moves crypto lifetimes 10 4 50 "token-3" csrf csrf db db_rotated rotated rotate_runs

-- Both sessions of the table expire at 1000 seconds.
session_fresh :
    (row : AuthSession)
    → Sessions.get_by_id 2 db.sessions ≡ some row
    → leb row.expires_at 20 ≡ false
unfolding Sessions.get_by_id
session_fresh row h = ground arith

abbrev db_revoked : Db
db_revoked = record db {
  sessions = (record session { revoked_at = some 15; revocation_reason = some "logout" }) ∷ [];
}

revoke_all_complete_example :
    (db' : Db) × (revoke_all_sessions_for_user 30 ada db ≡ (ok (live_count 1 db.sessions), db'))
    × (db'.users ≡ db.users)
    × ClosesAll 1 30 "logout_all" db.sessions db'.sessions
    × ((other : ℕ)
        → live_count other db'.sessions ≡ (if other == 1 then 0 else live_count other db.sessions))
revoke_all_complete_example = revoke_all_complete 30 ada db refl

text_ne : (s t : String) → str_eq s t ≡ false → s ≢ t
text_ne s t h e = let iff = eq_iff s t in ground arith

csrf_round_trip_example : validate_csrf_token crypto 2 (create_csrf_token crypto "nonce" 2) ≡ true
unfolding csrf_signature opsflow.Auth.Tokens.Roundtrip.has_dot
csrf_round_trip_example =
    csrf_round_trip crypto 2 "nonce" refl (text_ne _ _ refl) (text_ne _ _ refl)

-- Ada's reauthentication token proves the hash "hash".
abbrev reauth_crypto : Crypto
reauth_crypto = record crypto {
  decode_reauth = λ now token.
      if str_eq token "reauth"
      then some (record {
        type = str "reauth";
        sub = str "1";
        sid = missing;
        jti = str "3";
        cv = str "0123456789abcdef0123456789abcdef0123456789abcdef0123456789abcdef";
        nbf = number 0;
        exp = number 1000;
      })
      else none;
  reauth_hmac = λ message. "0123456789abcdef0123456789abcdef0123456789abcdef0123456789abcdef";
}

abbrev changed : Result opsflow.Auth.Action.AuthError PasswordChangeResult × Db
changed = change_password reauth_crypto 30 ada "reauth" "correct horse battery" "new hash" db

change_returns : changed ≡ (ok (record { user_id = 1; revoked_sessions = 1 }), changed.1)
unfolding change_password opsflow.Auth.Tokens.decode_reauthentication_token
    opsflow.Auth.Users.get_auth_record_by_email
    opsflow.Auth.Tokens.reauthentication_credential_matches
    opsflow.Auth.Users.update_password_hash_if_current Sessions.revoke_all_for_user
    Sessions.rowcount
change_returns = refl

password_change_complete_example :
    (current : UserAuthRecord) × Proven reauth_crypto 30 ada "reauth" current
    × (15 ≤ 21)
    × (21 ≤ 128)
    × (str_eq "correct horse battery" current.hashed_password ≡ false)
    × (set_password 30 1 current.hashed_password "new hash" db.users ≡ (1, changed.1.users))
    × (1 ≡ live_count 1 db.sessions)
    × ClosesAll 1 30 "password_changed" db.sessions changed.1.sessions
    × ((other : ℕ)
        → live_count other changed.1.sessions
          ≡ (if other == 1 then 0 else live_count other db.sessions))
password_change_complete_example =
    password_change_complete reauth_crypto 30 ada "reauth" "correct horse battery" "new hash" db
      changed.1 (record { user_id = 1; revoked_sessions = 1 }) change_returns
