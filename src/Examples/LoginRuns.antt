-- ===== src/Examples/LoginRuns.antt =====
-- A run of the theorem about logins: the right password, with one failure on record.
use Prim.Native.String.{◌++◌ as str_append}
use text.Mathlib.Text.{◌==◌ as str_eq}
use opsflow.Prelude.{◌≡◌, refl, Bool, true, false, none, some, [], ◌∷◌}
use opsflow.Dict.{lookup, insert}
use opsflow.Prelude.Int.{◌-ℤ◌}
use opsflow.Throttle.Store.{get_active_entries, append_entry}
use opsflow.Throttle.Window.{prune, cutoff}
use opsflow.Auth.Tokens.{Crypto}
use opsflow.Auth.Users.{UserAuthRecord, viewer, get_auth_record_by_email}
use opsflow.Auth.Service.{Lifetimes}
use opsflow.Auth.Login.{LoginState, LoginOutcome, logged_in, LoginDraw, login_for_access_token}
use opsflow.Auth.Login.Outcome.{Stands, login-Stands}
use opsflow.Throttle.Keys.{TextRuntime, opaque_key}
use opsflow.Throttle.Login.{LoginThrottle, record_failure}

abbrev plain : TextRuntime
plain = record {
  strip = λ s. s;
  lower = λ s. s;
  hmac_sha256 = λ secret message. str_append secret message;
}

abbrev crypto : Crypto
crypto = record {
  encode_refresh = λ p. "refresh";
  decode_refresh = λ now token. none;
  encode_access = λ p. "access";
  decode_reauth = λ now token. none;
  uuid = λ s. none;
  uuid_text = λ n. "1";
  from_timestamp = λ seconds. some seconds;
  csrf_hmac = λ message. message;
  reauth_hmac = λ message. message;
  verify_password = λ password hash. str_eq (str_append "hash:" password) hash;
  strip = λ s. s;
  lower = λ s. s;
}

abbrev lifetimes : Lifetimes
lifetimes = record { refresh_token = 1000; access_token = 100 }

abbrev joan : UserAuthRecord
joan = record {
  user = record {
    id = 4;
    email = "joan@example.com";
    full_name = "Joan";
    role = viewer;
    is_active = true;
    created_at = 0;
    updated_at = 0;
  };
  hashed_password = "hash:a long password";
}

abbrev logins : LoginThrottle
logins = record {
  secret_key = "k";
  ip_max_attempts = 5;
  ip_window_seconds = 60;
  account_max_failures = 3;
  account_window_seconds = 60;
  ip_attempts = [];
  account_failures = [];
}

abbrev before_login : LoginState
before_login = record {
  throttle = record_failure plain 1000 "joan@example.com" logins;
  db = record { users = joan ∷ []; sessions = [] };
}

abbrev draw : LoginDraw
draw = record {
  attempt_time = 2000;
  failure_time = 2001;
  now = 50;
  session_id = 6;
  token_id = 7;
  access_id = 8;
  nonce = "n";
}

-- The login is let in.
abbrev is_logged_in : LoginOutcome → Bool
is_logged_in (logged_in _) = true
is_logged_in _ = false

let_in :
    is_logged_in
      (login_for_access_token plain crypto lifetimes draw "10.0.0.1" "joan@example.com"
        "a long password" before_login).0
    ≡ true
unfolding login_for_access_token record_failure get_active_entries prune lookup append_entry insert
    opaque_key cutoff ◌-ℤ◌ get_auth_record_by_email
let_in = refl

login-Stands_example :
    Stands plain crypto lifetimes draw "10.0.0.1" "joan@example.com" "a long password" before_login
      (login_for_access_token plain crypto lifetimes draw "10.0.0.1" "joan@example.com"
        "a long password" before_login)
login-Stands_example =
    login-Stands plain crypto lifetimes draw "10.0.0.1" "joan@example.com" "a long password"
      before_login
