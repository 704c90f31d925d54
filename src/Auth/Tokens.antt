-- ===== src/Auth/Tokens.antt =====
-- backend/app/core/security.py: refresh tokens, reauthentication tokens and CSRF tokens. PyJWT,
-- pwdlib, Python's `UUID`, `datetime.fromtimestamp` and HMAC are the functions of a `Crypto`.
pub mod Roundtrip
pub mod Proofs
use Prim.Native.Char.{code}
use Prim.Native.String.{◌++◌ as str_append}
use Prim.Native.String
use text.Mathlib.Text.{◌==◌ as str_eq}
use opsflow.Prelude.{
  ℕ, ◌+◌, Bool, true, false, not, ◌&&◌, ◌||◌, String, Option, none, some, ◌==◌, if◌then◌else◌,
}

-- The value of a claim. Before a token is encoded a time is a datetime, in microseconds; after it is
-- decoded it is a number of seconds.
pub data ClaimValue : Type 0 where
  missing boolean other_value : ClaimValue
  str : String → ClaimValue
  number : ℕ → ClaimValue
  datetime : ℕ → ClaimValue

-- The claims that the program reads. `jwt.decode` also checks the signature, the issuer, the
-- audience, and that all required claims are there.
pub record Payload : Type 0 where
  pub type : ClaimValue
  pub sub : ClaimValue
  pub sid : ClaimValue
  pub jti : ClaimValue
  pub cv : ClaimValue
  pub nbf : ClaimValue
  pub exp : ClaimValue

pub record Crypto : Type 0 where
  -- `jwt.encode` and, at a time, `jwt.decode`, each under the secret of its kind of token
  pub encode_refresh : Payload → String
  pub decode_refresh : ℕ → String → Option Payload
  pub encode_access : Payload → String
  pub decode_reauth : ℕ → String → Option Payload
  pub uuid : String → Option ℕ
  pub uuid_text : ℕ → String
  pub from_timestamp : ℕ → Option ℕ
  -- `hmac.new(secret, message, sha256).hexdigest()` under each secret
  pub csrf_hmac : String → String
  pub reauth_hmac : String → String
  pub verify_password : String → String → Bool
  pub strip : String → String
  pub lower : String → String

pub record RefreshTokenClaims : Type 0 where
  pub user_id : ℕ
  pub session_id : ℕ
  pub token_id : ℕ
  pub expires_at : ℕ

pub record ReauthenticationClaims : Type 0 where
  pub user_id : ℕ
  pub token_id : ℕ
  pub credential_fingerprint : String

-- `none` is `TokenValidationError`.
infixl 10 ◌>>=◌ ◌>>◌
abbrev ◌>>=◌ {ℓ κ} : {A : Type ℓ} {B : Type κ} → Option A → (A → Option B) → Option B
none >>= f = none
some a >>= f = f a

abbrev ◌>>◌ {ℓ} : {B : Type ℓ} → Option (Unit {0}) → Option B → Option B
m >> k = m >>= λ _. k

abbrev require : Bool → Option (Unit {0})
require b = if b then some tt else none

abbrev is_text : String → ClaimValue → Bool
is_text s (str t) = str_eq t s
is_text s _ = false

abbrev text_of : ClaimValue → Option String
text_of (str s) = some s
text_of _ = none

abbrev number_of : ClaimValue → Option ℕ
number_of (number n) = some n
number_of _ = none

module _ (c : Crypto) where
  -- `_decode_subject`, `_decode_jti` and the parts of `decode_refresh_token` like them: a claim that
  -- is the text of a UUID.
  unfoldable pub uuid_claim : ClaimValue → Option ℕ
  uuid_claim value = do s ← text_of value; c.uuid s

  unfoldable pub decode_refresh_token : ℕ → String → Option RefreshTokenClaims
  unfolding uuid_claim
  decode_refresh_token now token = do
    payload ← c.decode_refresh now token
    require (is_text "refresh" payload.type)
    user_id ← uuid_claim payload.sub
    session_id ← uuid_claim payload.sid
    token_id ← uuid_claim payload.jti
    seconds ← number_of payload.exp
    expires_at ← c.from_timestamp seconds
    some (record {
      user_id = user_id;
      session_id = session_id;
      token_id = token_id;
      expires_at = expires_at;
    })

  unfoldable pub create_refresh_token : ℕ → ℕ → ℕ → ℕ → ℕ → String
  create_refresh_token now user_id session_id token_id expires_at = c.encode_refresh (record {
    type = str "refresh";
    sub = str (c.uuid_text user_id);
    sid = str (c.uuid_text session_id);
    jti = str (c.uuid_text token_id);
    cv = missing;
    nbf = datetime now;
    exp = datetime expires_at;
  })

  -- `expires_delta` is the configured lifetime; `token_id` is the `uuid4()` of the token.
  unfoldable pub create_access_token : ℕ → ℕ → ℕ → ℕ → String
  create_access_token now lifetime token_id user_id = c.encode_access (record {
    type = str "access";
    sub = str (c.uuid_text user_id);
    sid = missing;
    jti = str (c.uuid_text token_id);
    cv = missing;
    nbf = datetime now;
    exp = datetime (now + lifetime);
  })

  unfoldable pub decode_reauthentication_token : ℕ → String → Option ReauthenticationClaims
  unfolding uuid_claim
  decode_reauthentication_token now token = do
    payload ← c.decode_reauth now token
    require (is_text "reauth" payload.type)
    user_id ← uuid_claim payload.sub
    token_id ← uuid_claim payload.jti
    fingerprint ← text_of payload.cv
    require (String.count fingerprint == 64)
    some (record { user_id = user_id; token_id = token_id; credential_fingerprint = fingerprint })

  unfoldable pub create_reauthentication_fingerprint : String → String
  create_reauthentication_fingerprint hashed_password =
      c.reauth_hmac (str_append "opsflow-reauth-credential:" hashed_password)

  unfoldable pub reauthentication_credential_matches : String → String → Bool
  unfolding create_reauthentication_fingerprint
  reauthentication_credential_matches hashed_password credential_fingerprint =
      str_eq (create_reauthentication_fingerprint hashed_password) credential_fingerprint

  -- `_csrf_signature`
  unfoldable pub csrf_signature : ℕ → String → String
  csrf_signature session_id nonce =
      c.csrf_hmac (str_append (c.uuid_text session_id) (str_append ":" nonce))

  -- `nonce` is `secrets.token_urlsafe(32)`.
  unfoldable pub create_csrf_token : String → ℕ → String
  unfolding csrf_signature
  create_csrf_token nonce session_id =
      str_append nonce (str_append "." (csrf_signature session_id nonce))

-- `text.partition(".")`: what stands before the first dot, the dot if there is one, and the rest.
unfoldable pub partition : String → String × String × String
partition String.[] = ("", "", "")
partition (String.◌∷◌ ch rest) =
    let (before, separator, after) = partition rest in
    if code ch == b'.' then ("", ".", rest) else (String.◌∷◌ ch before, separator, after)

unfoldable pub validate_csrf_token : Crypto → ℕ → String → Bool
unfolding partition
validate_csrf_token c session_id csrf_token =
    let (nonce, separator, supplied) = partition csrf_token in
    if str_eq separator "" || (str_eq nonce "" || str_eq supplied "")
    then false
    else str_eq supplied (csrf_signature c session_id nonce)
