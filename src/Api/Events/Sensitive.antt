-- ===== src/Api/Events/Sensitive.antt =====
-- backend/app/core/security_events.py: which detail keys are sensitive, whatever their casing and
-- punctuation.
use Prim.Native.Char.{Char}
use Prim.Native.String.append
use Prim.Native.String.{◌++◌ as str_append}
use text.Mathlib.Text.{◌==◌ as str_eq, starts_with}
use text.Mathlib.TextEquality.{eq_iff}
use text.Mathlib.TextPositions.{starts_with-append}
use opsflow.Prelude.{
  ◌≡◌, refl, sym, ◌∙◌, ap, subst, ◌⊎◌, inl, inr, Bool, true, false, String, List, [], ◌∷◌, arith,
  Bool-cases,
}
use opsflow.Api.Events.Redaction.{
  is_infix, any_infix, sensitive_detail_key_markers, normalize_detail_key, is_sensitive_detail_key,
}

-- A text is one of a list.
abbrev pub IsOneOf : String → List String → Type 0
IsOneOf word [] = ⊥
IsOneOf word (other ∷ others) = (word ≡ other) ⊎ IsOneOf word others

-- The words by which a key names a secret.
abbrev pub secret_words : List String
secret_words =
    "password" ∷ "passwd" ∷ "token" ∷ "secret" ∷ "authorization" ∷ "cookie" ∷ "apikey"
    ∷ "privatekey" ∷ "signingkey" ∷ "hmackey" ∷ "bearer" ∷ "credential" ∷ []

is_infix-empty : (s : String) → is_infix "" s ≡ true
unfolding is_infix
is_infix-empty String.[] = refl
is_infix-empty (String.◌∷◌ ch rest) =
    let front =
      ap (λ t. starts_with t "") (sym (append.nil (String.◌∷◌ ch rest)))
      ∙ starts_with-append "" (String.◌∷◌ ch rest) in
    rw front refl

is_infix-front : (word after : String) → is_infix word (str_append word after) ≡ true
unfolding is_infix
is_infix-front String.[] after = is_infix-empty (str_append "" after)
is_infix-front (String.◌∷◌ ch word) after =
    let split = append.cons ch word after in
    let front =
      ap (λ t. starts_with t (String.◌∷◌ ch word)) (sym split)
      ∙ starts_with-append (String.◌∷◌ ch word) after in
    rw split (rw front refl)

is_infix-append :
    (before word after : String) → is_infix word (str_append before (str_append word after)) ≡ true
unfolding is_infix
is_infix-append String.[] word after =
    ap (is_infix word) (append.nil (str_append word after)) ∙ is_infix-front word after
is_infix-append (String.◌∷◌ ch before) word after =
    let rest = is_infix-append before word after in
    rw (append.cons ch before (str_append word after)) (ground arith)

any_infix-IsOneOf :
    (word key : String) (words : List String)
    → IsOneOf word words
    → is_infix word key ≡ true
    → any_infix words key ≡ true
any_infix-IsOneOf word key [] m h = absurd m
any_infix-IsOneOf word key (other ∷ others) (inl same) h = rw (← same) (rw h refl)
any_infix-IsOneOf word key (other ∷ others) (inr later) h =
    let rest = any_infix-IsOneOf word key others later h in ground arith

nonempty :
    (normalized : String)
    → any_infix sensitive_detail_key_markers normalized ≡ true
    → str_eq normalized "" ≡ false
unfolding is_infix
nonempty normalized h = elim (Bool-cases (str_eq normalized "")) [
  | inr differs ↦ differs
  | inl empty ↦
      let none_found : false ≡ true =
        subst (λ s. any_infix sensitive_detail_key_markers s ≡ true)
          ((eq_iff normalized "").0 empty) h in
      cc
]

module _ (isalnum : Char → Bool) (lower : Char → String) where
  -- The letters and digits of the key, in lower case, contain such a word.
  abbrev pub NamesSecret : String → Type 0
  NamesSecret key =
      (word : String) × (before : String) × (after : String) × IsOneOf word secret_words
      × (normalize_detail_key isalnum lower key ≡ str_append before (str_append word after))

  pub NamesSecret-sensitive :
      (key : String) → NamesSecret key → is_sensitive_detail_key isalnum lower key ≡ true
  unfolding is_sensitive_detail_key
  NamesSecret-sensitive key (word, before, after, one, spelled) =
      let found : any_infix sensitive_detail_key_markers (normalize_detail_key isalnum lower key)
          ≡ true =
        any_infix-IsOneOf word _ secret_words one
          (ap (is_infix word) spelled ∙ is_infix-append before word after) in
      rw (nonempty _ found) found
