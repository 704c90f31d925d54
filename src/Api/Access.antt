-- ===== src/Api/Access.antt =====
-- backend/app/api/dependencies.py: who may call an endpoint. Metrics are left out.
pub mod Guards
use text.Mathlib.Text.{◌==◌ as str_eq}
use opsflow.Prelude.{
  ℕ, true, false, String, Option, none, some, List, [], ◌∷◌, Result, ok, err, if◌then◌else◌,
}
use opsflow.Auth.Action.{Db}
use opsflow.Auth.Users.{User}
use opsflow.Auth.Tokens.{Crypto, Payload}
use opsflow.Auth.Resolve.{resolve_access_token}
use opsflow.Authorization.{Permission, require_permission}
use opsflow.ServiceIdentity.{services_read, ServicePrincipal, Runtime}
use opsflow.ServiceIdentity.Verifier.{
  Verifier, FailureReason, verify_backend_token, require_service_scope,
}
use opsflow.Api.{
  access_credentials_invalid, detail, Response, respond, unauthenticated, raises_http, Handler,
}
use opsflow.Api.Events.{failure, warning, SecurityEvent}

abbrev pub access_failed : String → SecurityEvent
access_failed reason = record {
  event = "auth.access_token.failed";
  outcome = failure;
  level = warning;
  user_id = none;
  account_identifier = none;
  reason = some reason;
  details = [];
}

-- A response 403 without a code.
abbrev pub forbidden : Response
forbidden = respond 403 detail []

module _ (c : Crypto) (decode_access : ℕ → String → Option Payload) where
  -- `get_current_user`, of the token that the request brings.
  unfoldable pub get_current_user :
      ℕ → Option String → Db → Result (Response × List SecurityEvent) User
  get_current_user now none db =
      err (unauthenticated access_credentials_invalid, access_failed "missing_access_token" ∷ [])
  get_current_user now (some token) db =
      if str_eq token ""
      then err
          (unauthenticated access_credentials_invalid, access_failed "missing_access_token" ∷ [])
      else (elim (resolve_access_token c decode_access now token db).0 [
        | ok user ↦ ok user
        | err _ ↦
            err (
              unauthenticated access_credentials_invalid,
              access_failed "invalid_access_token" ∷ [],
            )
      ])

  -- An endpoint with a `CurrentUser`.
  unfoldable pub with_current_user : ℕ → Option String → (User → Handler Db) → Handler Db
  with_current_user now token handler db = elim (get_current_user now token db) [
    | err (response, events) ↦ (raises_http response, events, db)
    | ok user ↦ handler user db
  ]

  -- `permission_dependency`
  unfoldable pub permission_dependency : Permission → (User → Handler Db) → User → Handler Db
  permission_dependency permission handler user db = elim (require_permission user permission) [
    | err _ ↦ (raises_http forbidden, [], db)
    | ok _ ↦ handler user db
  ]

  -- An endpoint that `require_permission(permission)` guards.
  unfoldable pub with_permission : ℕ → Option String → Permission → (User → Handler Db) → Handler Db
  unfolding with_current_user permission_dependency
  with_permission now token permission handler =
      with_current_user now token (permission_dependency permission handler)

module _ (py : Runtime) (verifier : Verifier) where
  -- `authenticate_incident_service`; the error is the response 401 with the reason that is recorded.
  unfoldable pub authenticate_incident_service :
      ℕ → Option String → Result (Option FailureReason) ServicePrincipal
  authenticate_incident_service now none = err none
  authenticate_incident_service now (some credentials) =
      elim (verify_backend_token py verifier now credentials) [
        | err reason ↦ err (some reason)
        | ok principal ↦ ok principal
      ]

  -- `require_services_read`, with the response of a refusal.
  unfoldable pub require_services_read : ℕ → Option String → Result Response ServicePrincipal
  unfolding authenticate_incident_service
  require_services_read now credentials = elim (authenticate_incident_service now credentials) [
    | err _ ↦ err (record (respond 401 detail []) { www_authenticate = true })
    | ok principal ↦
        if require_service_scope services_read principal then ok principal else err forbidden
  ]
