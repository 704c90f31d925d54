-- ===== src/Examples/ApiRuns.antt =====
-- Runs of the theorems about the HTTP interface: a replayed refresh token, a logout, a permission, a
-- reset request, and a registration.
use Prim.Native.Char.{Char}
use text.Mathlib.Text.{◌==◌ as str_eq}
use opsflow.Prelude.{
  ℕ, ◌≡◌, ◌⊎◌, refl, inl, true, false, String, Option, none, some, List, [], ◌∷◌, ok, err, leb,
  ◌==◌, arith, if◌then◌else◌, map, All,
}
use opsflow.Auth.Action.{Db}
use opsflow.Auth.Sessions
use opsflow.Auth.Sessions.{AuthSession}
use opsflow.Auth.Users.{User, UserAuthRecord, viewer, get_auth_record_by_email}
use opsflow.Auth.Tokens.{
  Crypto, Payload, str, decode_refresh_token, validate_csrf_token, csrf_signature,
  create_reauthentication_fingerprint,
}
use opsflow.Auth.Service.{rotate_refresh_token_with_csrf}
use opsflow.Auth.Login.{authenticate}
use opsflow.Auth.Refresh.{usable}
use opsflow.Authorization.{incident_delete, has_permission}
use opsflow.Api.{
  Handler, refresh_credentials_invalid, access_credentials_invalid, unauthenticated, answer,
  current, respond, no_body, returns,
}
use opsflow.Api.Cookies.{CookieSettings, get_refresh_cookie, clear_auth_cookies}
use opsflow.Api.Events.{DetailValue, text_value}
use opsflow.Api.Events.Redaction.{sanitize_details}
use opsflow.Api.Events.Safety.{IsSafe, replace_secret, sanitize_details-IsSafe}
use opsflow.Api.Tokens.{Credentials, RefreshDraw, refresh_access_token, logout}
use opsflow.Api.Tokens.Replay.{replay_answered}
use opsflow.Api.Tokens.Logout.{LoggedOut, logout-LoggedOut}
use opsflow.Api.Access.{forbidden, with_permission}
use opsflow.Api.Access.Guards.{IsUserOf, guarded}
use opsflow.Api.Registration.{NewUser, register_account}
use opsflow.Api.Registration.FirstLogin.{registered_can_log_in}
use opsflow.Examples.AuthRuns.{payload, crypto, lifetimes, session, db, claims}

abbrev settings : CookieSettings
settings = record {
  refresh_cookie_name = "refresh";
  csrf_cookie_name = "csrf";
  refresh_cookie_samesite = "lax";
  refresh_cookie_path = "/api/v1/auth";
  is_production = true;
}

abbrev request : Credentials
request = record {
  cookies = ("refresh", "token-3") ∷ ("csrf", "nonce.hmac:2:nonce") ∷ [];
  csrf_header = some "nonce.hmac:2:nonce";
}

abbrev decoding : Crypto
decoding = record crypto { decode_refresh = λ now token. some payload }

abbrev first_draw : RefreshDraw
first_draw = record { now = 10; replacement = 4; access_id = 50; cookie_time = 11 }

abbrev later_draw : RefreshDraw
later_draw = record { now = 20; replacement = 5; access_id = 51; cookie_time = 21 }

session_fresh :
    (row : AuthSession)
    → Sessions.get_by_id 2 db.sessions ≡ some row
    → leb row.expires_at 20 ≡ false
unfolding Sessions.get_by_id
session_fresh row h = ground arith

refreshed :
    (answer
      (refresh_access_token settings decoding lifetimes first_draw request)
      db).response.status
    ≡ 200
unfolding answer refresh_access_token get_refresh_cookie opsflow.Api.Cookies.get_csrf_cookie
    opsflow.Dict.lookup rotate_refresh_token_with_csrf decode_refresh_token validate_csrf_token
    csrf_signature Sessions.get_by_id opsflow.Auth.Users.get_by_id
    opsflow.Auth.Tokens.create_access_token opsflow.Auth.Tokens.create_refresh_token
    Sessions.update_current_token Sessions.update_where
refreshed = refl

replay_answered_example :
    ((answer
        (refresh_access_token settings decoding lifetimes later_draw request)
        (answer
          (refresh_access_token settings decoding lifetimes first_draw request)
          db).state).response
      ≡ record (unauthenticated refresh_credentials_invalid) {
        cookies = clear_auth_cookies settings;
      })
    × ((row : AuthSession) × (Sessions.get_by_id 2
            (answer
              (refresh_access_token settings decoding lifetimes later_draw request)
              (answer
                (refresh_access_token settings decoding lifetimes first_draw request)
                db).state).state.sessions
          ≡ some row)
        × (row.revoked_at ≡ some 20))
unfolding get_refresh_cookie opsflow.Dict.lookup decode_refresh_token
replay_answered_example =
    replay_answered settings decoding lifetimes request first_draw later_draw "token-3" claims db
      refl refl refl (omega arith) session_fresh refreshed

logout-LoggedOut_example :
    LoggedOut settings decoding 30 request db
      (ok (claims, session))
      (answer (logout settings decoding 30 request) db)
unfolding get_refresh_cookie opsflow.Dict.lookup usable opsflow.Api.Cookies.get_csrf_cookie
    decode_refresh_token opsflow.Auth.Refresh.csrf_holds validate_csrf_token csrf_signature
    opsflow.Auth.Refresh.checked_session Sessions.get_by_id opsflow.Auth.Refresh.is_usable
logout-LoggedOut_example = logout-LoggedOut settings decoding 30 request db "token-3" refl

-- Every access token is Ada's, who may not delete.
abbrev access : ℕ → String → Option Payload
access now token = some (record payload { type = str "access" })

-- An endpoint that clears the sessions.
abbrev wipe : User → Handler Db
wipe user state = (returns (respond 204 no_body []), [], record state { sessions = [] })

guarded_example :
    (((answer (with_permission crypto access 10 (some "t") incident_delete wipe) db).response
        ≡ unauthenticated access_credentials_invalid)
      × ((answer (with_permission crypto access 10 (some "t") incident_delete wipe) db).state ≡ db))
    ⊎ ((((answer (with_permission crypto access 10 (some "t") incident_delete wipe) db).response
            ≡ forbidden)
          × ((answer (with_permission crypto access 10 (some "t") incident_delete wipe) db).state
              ≡ db))
        ⊎ ((user : User) × (text : String) × (some "t" ≡ some text)
            × IsUserOf crypto access 10 db text user
            × (has_permission user incident_delete ≡ true)
            × (answer (with_permission crypto access 10 (some "t") incident_delete wipe) db
                ≡ answer (wipe user) db)))
guarded_example = guarded crypto access 10 db (some "t") incident_delete wipe

abbrev details : List (String × DetailValue)
details = ("user_note", text_value "hello") ∷ ("reset_token", text_value "abc") ∷ []

abbrev isalnum : Char → opsflow.Prelude.Bool
isalnum ch = true

abbrev lower : Char → String
lower ch = String.◌∷◌ ch ""

sanitize_details-IsSafe_example :
    All (IsSafe isalnum lower) (sanitize_details isalnum lower details)
    × (sanitize_details isalnum lower
          (map (replace_secret isalnum lower (λ entry. text_value "xyz")) details)
        ≡ sanitize_details isalnum lower details)
sanitize_details-IsSafe_example =
    sanitize_details-IsSafe isalnum lower (λ entry. text_value "xyz") details

abbrev zoe : NewUser
zoe = record { id = 8; now = 100; hashed_password = "a long password!" }

registration : (answer (register_account crypto zoe "zoe@example.com") db).response.status ≡ 201
unfolding answer register_account get_auth_record_by_email
registration = refl

registered_can_log_in_example :
    (user : User) × ((answer (register_account crypto zoe "zoe@example.com") db).response.body
      ≡ current user)
    × (user.role ≡ viewer)
    × (user.email ≡ "zoe@example.com")
    × (authenticate crypto "zoe@example.com" "a long password!"
          (answer (register_account crypto zoe "zoe@example.com") db).state
        ≡ (ok user, (answer (register_account crypto zoe "zoe@example.com") db).state))
    × ((answer (register_account crypto zoe "zoe@example.com") db).state.sessions ≡ db.sessions)
    × (get_auth_record_by_email "ada@example.com"
          (answer (register_account crypto zoe "zoe@example.com") db).state.users
        ≡ (if str_eq user.email "ada@example.com"
            then some (record { user = user; hashed_password = "a long password!" })
            else get_auth_record_by_email "ada@example.com" db.users))
registered_can_log_in_example =
    registered_can_log_in crypto zoe "zoe@example.com" db "a long password!" "ada@example.com" refl
      refl registration
