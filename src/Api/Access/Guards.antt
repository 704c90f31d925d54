-- ===== src/Api/Access/Guards.antt =====
-- backend/app/api/dependencies.py: what a guarded endpoint has checked before it runs.
use text.Mathlib.Text.{◌==◌ as str_eq}
use opsflow.Prelude.{
  ℕ, ◌≡◌, ◌⊎◌, refl, ap, ◌∙◌, true, false, String, Option, none, some, List, [], ◌∷◌, Result, ok,
  err, Bool-cases, Option-cases, inl, inr, arith,
}
use opsflow.Auth.Action.{Db}
use opsflow.Auth.Users
use opsflow.Auth.Users.{User}
use opsflow.Auth.Tokens.{Crypto, Payload}
use opsflow.Auth.Tokens.Proofs.{decode_access_token}
use opsflow.Auth.Service.{resolve_active_user, require_active_user}
use opsflow.Auth.Resolve.{resolve_access_token}
use opsflow.Authorization.{Permission, has_permission, require_permission}
use opsflow.Api.{
  access_credentials_invalid, Response, Ending, raises_http, unauthenticated, Handler, Answered,
  answer,
}
use opsflow.Api.Events.{SecurityEvent}
use opsflow.Api.Access.{
  access_failed, forbidden, get_current_user, with_current_user, permission_dependency,
  with_permission,
}

module _ (c : Crypto) (decode_access : ℕ → String → Option Payload) (now : ℕ) (db : Db) where
  -- The user that an access token stands for.
  abbrev pub IsUserOf : String → User → Type 0
  IsUserOf token user =
      (user_id : ℕ) × (decode_access_token c decode_access now token ≡ some user_id)
      × (Users.get_by_id user_id db.users ≡ some user)
      × (user.is_active ≡ true)

  resolve-IsUserOf :
      (token : String) (user : User)
      → (resolve_access_token c decode_access now token db).0 ≡ ok user
      → IsUserOf token user
  unfolding resolve_access_token resolve_active_user require_active_user
  resolve-IsUserOf token user h =
      elim (Option-cases (decode_access_token c decode_access now token)) [
        | inl refused ↦ absurd (ground arith)
        | inr (user_id, decoded) ↦ elim (Option-cases (Users.get_by_id user_id db.users)) [
          | inl missing ↦ absurd (ground arith)
          | inr (row, found) ↦ elim (Bool-cases row.is_active) [
            | inl active ↦
                let same : row ≡ user = ground arith in
                (user_id, decoded, ground arith, ground arith)
            | inr inactive ↦ absurd (ground arith)
          ]
        ]
      ]

  -- The current user is that of a token, and a refusal is the response 401.
  current_user-cases :
      (token : Option String)
      → ((user : User) × (text : String) × (get_current_user c decode_access now token db ≡ ok user)
          × (token ≡ some text)
          × IsUserOf text user)
        ⊎ ((events : List SecurityEvent) × (get_current_user c decode_access now token db
              ≡ err (unauthenticated access_credentials_invalid, events)))
  unfolding get_current_user
  current_user-cases none = inr (access_failed "missing_access_token" ∷ [], refl)
  current_user-cases (some token) = elim (Bool-cases (str_eq token "")) [
    | inl empty ↦ inr (access_failed "missing_access_token" ∷ [], rw empty refl)
    | inr there ↦ by_resolve (resolve_access_token c decode_access now token db).0 refl there
  ]
    where
      by_resolve :
          (r : Result opsflow.Auth.Action.AuthError User)
          → (resolve_access_token c decode_access now token db).0 ≡ r
          → str_eq token "" ≡ false
          → ((user : User) × (text : String) × (get_current_user c decode_access now (some token) db
                ≡ ok user)
              × (some token ≡ some text)
              × IsUserOf text user)
            ⊎ ((events : List SecurityEvent) × (get_current_user c decode_access now (some token) db
                  ≡ err (unauthenticated access_credentials_invalid, events)))
      by_resolve (ok user) e there =
          inl (user, token, rw (there, e) refl, refl, resolve-IsUserOf token user e)
      by_resolve (err x) e there =
          inr (access_failed "invalid_access_token" ∷ [], rw (there, e) refl)

  with_user-run :
      (token : Option String) (handler : User → Handler Db) (user : User)
      → get_current_user c decode_access now token db ≡ ok user
      → with_current_user c decode_access now token handler db ≡ handler user db
  unfolding with_current_user
  with_user-run token handler user current = rw (with_current_user, current) refl

  refused-run :
      (token : Option String) (handler : User → Handler Db) (response : Response)
      (events : List SecurityEvent)
      → get_current_user c decode_access now token db ≡ err (response, events)
      → with_current_user c decode_access now token handler db ≡ (raises_http response, events, db)
  unfolding with_current_user
  refused-run token handler response events refused = rw (with_current_user, refused) refl

  granted-run :
      (permission : Permission) (handler : User → Handler Db) (user : User)
      → has_permission user permission ≡ true
      → permission_dependency c decode_access permission handler user db ≡ handler user db
  unfolding permission_dependency require_permission
  granted-run permission handler user granted = rw (permission_dependency, granted) refl

  denied-run :
      (permission : Permission) (handler : User → Handler Db) (user : User)
      → has_permission user permission ≡ false
      → permission_dependency c decode_access permission handler user db
        ≡ (raises_http forbidden, [], db)
  unfolding permission_dependency require_permission
  denied-run permission handler user denied = rw (permission_dependency, denied) refl

  -- An endpoint that a permission guards answers 401 or 403 and changes no row, or it runs for the
  -- active user of its access token, who has the permission.
  pub guarded :
      (token : Option String) (permission : Permission) (handler : User → Handler Db)
      → (((answer (with_permission c decode_access now token permission handler) db).response
            ≡ unauthenticated access_credentials_invalid)
          × ((answer (with_permission c decode_access now token permission handler) db).state ≡ db))
        ⊎ ((((answer (with_permission c decode_access now token permission handler) db).response
                ≡ forbidden)
              × ((answer (with_permission c decode_access now token permission handler) db).state
                  ≡ db))
            ⊎ ((user : User) × (text : String) × (token ≡ some text)
                × IsUserOf text user
                × (has_permission user permission ≡ true)
                × (answer (with_permission c decode_access now token permission handler) db
                    ≡ answer (handler user) db)))
  unfolding answer with_permission
  guarded token permission handler = elim (current_user-cases token) [
    | inr (events, refused) ↦
        let answered =
          ap (λ (e : Ending × List SecurityEvent × Db). answer (λ _. e) db)
            (refused-run token (permission_dependency c decode_access permission handler)
              (unauthenticated access_credentials_invalid) events refused) in
        inl (
          ap (λ (a : Answered Db). a.response) answered,
          ap (λ (a : Answered Db). a.state) answered,
        )
    | inl (user, text, current, sent, of) ↦
        let dependency = permission_dependency c decode_access permission handler in
        let run = with_user-run token dependency user current in
        elim (Bool-cases (has_permission user permission)) [
          | inl granted ↦
              let answered =
                ap (λ (e : Ending × List SecurityEvent × Db). answer (λ _. e) db)
                  (run ∙ granted-run permission handler user granted) in
              inr (inr (user, text, sent, of, granted, answered))
          | inr denied ↦
              let answered =
                ap (λ (e : Ending × List SecurityEvent × Db). answer (λ _. e) db)
                  (run ∙ denied-run permission handler user denied) in
              inr (
                inl (
                  ap (λ (a : Answered Db). a.response) answered,
                  ap (λ (a : Answered Db). a.state) answered,
                ))
        ]
  ]
