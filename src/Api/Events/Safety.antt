-- ===== src/Api/Events/Safety.antt =====
-- backend/app/core/security_events.py: the details that are logged of an event.
use Prim.Native.Char.{Char, code}
use text.Mathlib.Text.{◌==◌ as str_eq}
use opsflow.Prelude.{
  ℕ, zero, suc, ◌≡◌, ◌≢◌, refl, Bool, true, false, String, List, [], ◌∷◌, map, All, arith,
  if◌then◌else◌, Bool-cases, inl, inr,
}
use opsflow.Dict.{Dict, insert}
use opsflow.Execution.{first_characters}
use opsflow.Api.Events.Redaction.{
  redacted_detail_value, is_control, space, without_controls, clean_text, clean_value,
  is_sensitive_detail_key, sanitize_from, sanitize_details,
}
use opsflow.Api.Events.Sensitive.{NamesSecret, NamesSecret-sensitive}
use opsflow.Api.Events.{DetailValue, text_value, number_value, boolean_value, no_value}

module _ (isalnum : Char → Bool) (lower : Char → String) where
  -- The value of a sensitive key, replaced by another.
  abbrev pub replace_secret :
      (String × DetailValue → DetailValue) → String × DetailValue → String × DetailValue
  replace_secret other (key, value) = (
    key,
    if is_sensitive_detail_key isalnum lower (clean_text key) then other (key, value) else value,
  )

  secrets_from :
      (other : String × DetailValue → DetailValue) (sanitized : Dict DetailValue)
      (details : List (String × DetailValue))
      → sanitize_from isalnum lower sanitized (map (replace_secret other) details)
        ≡ sanitize_from isalnum lower sanitized details
  unfolding sanitize_from
  secrets_from other sanitized [] = refl
  secrets_from other sanitized ((key, value) ∷ details) =
      elim (Bool-cases (is_sensitive_detail_key isalnum lower (clean_text key))) [
        | inl sensitive ↦ rw sensitive (
            rw sensitive (
              secrets_from other
                (insert (clean_text key) (text_value redacted_detail_value) sanitized) details))
        | inr plain ↦ rw plain (
            rw plain
              (secrets_from other (insert (clean_text key) (clean_value value) sanitized) details))
      ]

-- A character that is no carriage return, no line feed and no tab.
abbrev pub IsPlain : Char → Type 0
IsPlain ch = (code ch ≢ 13) × (code ch ≢ 10) × (code ch ≢ 9)

character-IsPlain : (ch : Char) → is_control ch ≡ false → IsPlain ch
character-IsPlain ch h = (λ e. ground arith, λ e. ground arith, λ e. ground arith)

space-IsPlain : IsPlain space
space-IsPlain = character-IsPlain space refl

-- A text without carriage returns, line feeds and tabs, and of at most `n` characters.
abbrev pub IsClean : ℕ → String → Type 0
IsClean n String.[] = Unit
IsClean zero (String.◌∷◌ ch rest) = ⊥
IsClean (suc n) (String.◌∷◌ ch rest) = IsPlain ch × IsClean n rest

space_for_control : (ch : Char) → IsPlain (if is_control ch then space else ch)
space_for_control ch = elim (Bool-cases (is_control ch)) [
  | inl control ↦ rw control space-IsPlain
  | inr plain ↦ rw plain (character-IsPlain ch plain)
]

first_characters-IsClean :
    (n : ℕ) (s : String) → IsClean n (first_characters n (without_controls s))
unfolding without_controls first_characters
first_characters-IsClean zero s = tt
first_characters-IsClean (suc n) String.[] = tt
first_characters-IsClean (suc n) (String.◌∷◌ ch rest) =
    (space_for_control ch, first_characters-IsClean n rest)

redacted-IsClean : IsClean 256 redacted_detail_value
unfolding first_characters without_controls
redacted-IsClean = first_characters-IsClean 256 redacted_detail_value

clean_text-IsClean : (s : String) → IsClean 256 (clean_text s)
unfolding clean_text
clean_text-IsClean s = first_characters-IsClean 256 s

abbrev pub IsCleanValue : DetailValue → Type 0
IsCleanValue (text_value s) = IsClean 256 s
IsCleanValue _ = Unit

clean_value-IsClean : (value : DetailValue) → IsCleanValue (clean_value value)
unfolding clean_value
clean_value-IsClean (text_value s) = clean_text-IsClean s
clean_value-IsClean (number_value n) = tt
clean_value-IsClean (boolean_value b) = tt
clean_value-IsClean no_value = tt

module _ (isalnum : Char → Bool) (lower : Char → String) where
  -- What may be logged of a detail.
  abbrev pub IsSafe : String × DetailValue → Type 0
  IsSafe (key, value) =
      IsClean 256 key
      × IsCleanValue value
      × (is_sensitive_detail_key isalnum lower key ≡ true
          → value ≡ text_value redacted_detail_value)
      × (NamesSecret isalnum lower key → value ≡ text_value redacted_detail_value)

  insert-IsSafe :
      (key : String) (value : DetailValue) (sanitized : Dict DetailValue)
      → IsSafe (key, value)
      → All IsSafe sanitized
      → All IsSafe (insert key value sanitized)
  unfolding insert
  insert-IsSafe key value [] safe all = (safe, tt)
  insert-IsSafe key value ((other, old) ∷ sanitized) safe (first, rest) =
      elim (Bool-cases (str_eq other key)) [
        | inl same ↦ rw same (safe, rest)
        | inr differs ↦ rw differs (first, insert-IsSafe key value sanitized safe rest)
      ]

  cleaned-IsSafe :
      (key : String) (value : DetailValue)
      → IsSafe (
        clean_text key,
        if is_sensitive_detail_key isalnum lower (clean_text key)
            then text_value redacted_detail_value
            else clean_value value,
      )
  cleaned-IsSafe key value =
      elim (Bool-cases (is_sensitive_detail_key isalnum lower (clean_text key))) [
        | inl sensitive ↦
            rw sensitive (clean_text-IsClean key, redacted-IsClean, λ e. refl, λ named. refl)
        | inr plain ↦ rw plain (
          clean_text-IsClean key,
          clean_value-IsClean value,
          λ e. absurd (ground arith),
          λ named.
              let sensitive = NamesSecret-sensitive isalnum lower (clean_text key) named in
              absurd (ground arith),
        )
      ]

  sanitize_from-IsSafe :
      (details : List (String × DetailValue)) (sanitized : Dict DetailValue)
      → All IsSafe sanitized
      → All IsSafe (sanitize_from isalnum lower sanitized details)
  unfolding sanitize_from
  sanitize_from-IsSafe [] sanitized all = all
  sanitize_from-IsSafe ((key, value) ∷ details) sanitized all =
      sanitize_from-IsSafe details _
        (insert-IsSafe (clean_text key) _ sanitized (cleaned-IsSafe key value) all)

  -- Every detail that is sanitized has a key and a text of at most 256 characters without carriage
  -- returns, line feeds and tabs. It is redacted where the program takes its key for sensitive, and so
  -- wherever the letters and digits of its key, in lower case, contain one of the twelve words that name
  -- a secret. And the result is the same whatever the values of the sensitive keys are.
  pub sanitize_details-IsSafe :
      (other : String × DetailValue → DetailValue) (details : List (String × DetailValue))
      → All IsSafe (sanitize_details isalnum lower details)
        × (sanitize_details isalnum lower (map (replace_secret isalnum lower other) details)
            ≡ sanitize_details isalnum lower details)
  unfolding sanitize_details
  sanitize_details-IsSafe other details =
      (sanitize_from-IsSafe details [] tt, secrets_from isalnum lower other [] details)
