-- ===== src/Api/Cookies.antt =====
-- backend/app/core/auth_cookies.py. Times are in microseconds. `delete_cookie` is Starlette's.
use text.Mathlib.Text.{◌==◌ as str_eq}
use opsflow.Prelude.{
  ℕ, ◌-◌, ◌/◌, Bool, true, false, String, Option, none, some, List, [], ◌∷◌, if◌then◌else◌,
}
use opsflow.Dict.{Dict, lookup}
use opsflow.Auth.Tokens.{Crypto, decode_refresh_token}

pub record CookieSettings : Type 0 where
  pub refresh_cookie_name : String
  pub csrf_cookie_name : String
  pub refresh_cookie_samesite : String
  pub refresh_cookie_path : String
  pub is_production : Bool

pub record Cookie : Type 0 where
  pub key : String
  pub path : String
  pub secure : Bool
  pub httponly : Bool
  pub samesite : String

-- A cookie is set to a value, with its `max_age`, or deleted.
pub data CookieChange : Type 0 where
  set_cookie : Cookie → String → Option ℕ → CookieChange
  delete_cookie : Cookie → CookieChange

-- A cookie that is not there or empty is none.
unfoldable pub get_cookie : String → Dict String → Option String
get_cookie name cookies = elim (lookup name cookies) [
  | none ↦ none
  | some token ↦ if str_eq token "" then none else some token
]

module _ (settings : CookieSettings) where
  unfoldable pub get_refresh_cookie : Dict String → Option String
  unfolding get_cookie
  get_refresh_cookie cookies = get_cookie settings.refresh_cookie_name cookies

  unfoldable pub get_csrf_cookie : Dict String → Option String
  unfolding get_cookie
  get_csrf_cookie cookies = get_cookie settings.csrf_cookie_name cookies

  abbrev pub refresh_cookie : Cookie
  refresh_cookie = record {
    key = settings.refresh_cookie_name;
    path = settings.refresh_cookie_path;
    secure = settings.is_production;
    httponly = true;
    samesite = settings.refresh_cookie_samesite;
  }

  abbrev pub csrf_cookie : Cookie
  csrf_cookie = record {
    key = settings.csrf_cookie_name;
    path = "/";
    secure = settings.is_production;
    httponly = false;
    samesite = settings.refresh_cookie_samesite;
  }

  -- The whole seconds up to the expiry, and 0 after it; `none` is `TokenValidationError`.
  unfoldable pub refresh_cookie_max_age : Crypto → ℕ → String → Option ℕ
  refresh_cookie_max_age c now token = elim (decode_refresh_token c now token) [
    | none ↦ none
    | some claims ↦ some ((claims.expires_at - now) / 1000000)
  ]

  unfoldable pub set_refresh_cookie : Crypto → ℕ → String → Option CookieChange
  unfolding refresh_cookie_max_age
  set_refresh_cookie c now token = elim (refresh_cookie_max_age c now token) [
    | none ↦ none
    | some max_age ↦ some (set_cookie refresh_cookie token (some max_age))
  ]

  unfoldable pub set_csrf_cookie : String → CookieChange
  set_csrf_cookie token = set_cookie csrf_cookie token none

  unfoldable pub clear_refresh_cookie : CookieChange
  clear_refresh_cookie = delete_cookie refresh_cookie

  unfoldable pub clear_csrf_cookie : CookieChange
  clear_csrf_cookie = delete_cookie csrf_cookie

  unfoldable pub clear_auth_cookies : List CookieChange
  unfolding clear_refresh_cookie clear_csrf_cookie
  clear_auth_cookies = clear_refresh_cookie ∷ clear_csrf_cookie ∷ []
