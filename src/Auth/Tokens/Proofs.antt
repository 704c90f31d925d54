-- ===== src/Auth/Tokens/Proofs.antt =====
-- backend/app/core/security.py: the access token that a request brings, and the reauthentication token
-- that proves a password. Encoding and decoding under the secrets of these tokens are arguments.
use opsflow.Prelude.{ℕ, ◌+◌, String, Option}
use opsflow.Auth.Tokens.{
  Crypto, Payload, missing, str, datetime, is_text, require, uuid_claim,
  create_reauthentication_fingerprint, ◌>>=◌, ◌>>◌,
}

-- `decode_access_token`
unfoldable pub decode_access_token : Crypto → (ℕ → String → Option Payload) → ℕ → String → Option ℕ
unfolding uuid_claim
decode_access_token c decode_access now token = do
  payload ← decode_access now token
  require (is_text "access" payload.type)
  _ ← uuid_claim c payload.jti
  uuid_claim c payload.sub

-- `create_reauthentication_token`
unfoldable pub create_reauthentication_token :
    Crypto → (Payload → String) → (now lifetime token_id user_id : ℕ) → String → String
unfolding create_reauthentication_fingerprint
create_reauthentication_token c encode_reauth now lifetime token_id user_id credential_hash =
    encode_reauth (record {
      type = str "reauth";
      sub = str (c.uuid_text user_id);
      sid = missing;
      jti = str (c.uuid_text token_id);
      cv = str (create_reauthentication_fingerprint c credential_hash);
      nbf = datetime now;
      exp = datetime (now + lifetime);
    })
