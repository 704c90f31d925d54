-- ===== src/Auth/Tokens/Roundtrip.antt =====
-- backend/app/core/security.py: what is created is accepted.
use Prim.Native.Char.{Char, code}
use Prim.Native.String.{◌++◌ as str_append}
use text.Mathlib.Text.{◌==◌ as str_eq}
use text.Mathlib.TextEquality.{eq_iff}
use text.Mathlib.TextLemmas.{cons-append, nil-append}
use opsflow.Prelude.{ℕ, ◌≡◌, ◌≢◌, refl, ◌∙◌, ap, Bool, true, false, ◌||◌, String, ◌==◌, arith}
use opsflow.Auth.Tokens.{Crypto, partition, csrf_signature, create_csrf_token, validate_csrf_token}

unfoldable pub has_dot : String → Bool
has_dot String.[] = false
has_dot (String.◌∷◌ ch rest) = (code ch == b'.') || has_dot rest

-- The character of ".".
abbrev dot : Char
dot = Char.char b'.' tt

dot_append : (rest : String) → str_append "." rest ≡ String.◌∷◌ dot rest
dot_append rest = cons-append dot String.[] rest ∙ ap (String.◌∷◌ dot) (nil-append rest)

partition-dot :
    (nonce rest : String)
    → has_dot nonce ≡ false
    → partition (str_append nonce (String.◌∷◌ dot rest)) ≡ (nonce, ".", rest)
unfolding partition has_dot
partition-dot String.[] rest h = rw (nil-append (String.◌∷◌ dot rest)) refl
partition-dot (String.◌∷◌ ch more) rest h =
    let tail = partition-dot more rest in
    let cons = cons-append ch more (String.◌∷◌ dot rest) in ground arith

str_eq_refl : (s : String) → str_eq s s ≡ true
str_eq_refl s = (eq_iff s s).1 refl

str_eq_ne : (s t : String) → s ≢ t → str_eq s t ≡ false
str_eq_ne s t ne = let iff = eq_iff s t in ground arith

-- A CSRF token that was created for a session is accepted for that session, where its nonce is not
-- empty and has no dot, and the signature is not empty.
pub csrf_round_trip :
    (c : Crypto) (session_id : ℕ) (nonce : String)
    → has_dot nonce ≡ false
    → nonce ≢ ""
    → csrf_signature c session_id nonce ≢ ""
    → validate_csrf_token c session_id (create_csrf_token c nonce session_id) ≡ true
unfolding validate_csrf_token create_csrf_token
csrf_round_trip c session_id nonce h n s =
    rw
      (
        dot_append (csrf_signature c session_id nonce),
        partition-dot nonce (csrf_signature c session_id nonce) h,
        str_eq_ne nonce "" n,
        str_eq_ne (csrf_signature c session_id nonce) "" s,
      )
      (str_eq_refl (csrf_signature c session_id nonce))
