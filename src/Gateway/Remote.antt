-- ===== src/Gateway/Remote.antt =====
-- backend/app/gateways/http_incident_gateway.py: what its methods make of a response, and what the
-- routes of backend/app/api/routes/incidents.py and incident_gateway_errors.py answer. JSON with its
-- validation is a parameter.
pub mod Agreement
use opsflow.Prelude.{ℕ, String, Option, none, some, Result, ok, err, leb, ◌==◌, if◌then◌else◌}
use opsflow.Incidents.{Incident}
use opsflow.Incidents.Service.{IncidentCreate}
use opsflow.Auth.Users.{User}
use opsflow.Incidents.Routes.{Call, get, delete, create, update, Reply}
use opsflow.ServiceIdentity.{ServiceScope, incidents_read, incidents_write}
use opsflow.Gateway
use opsflow.Gateway.{Method, post, patch, is_retryable_read, GatewayError}

-- `IncidentNotFoundError`, `IncidentServiceReferenceError`, `IncidentGatewayUnavailableError`,
-- `IncidentGatewayProtocolError`, and an error of `_request`.
pub data RemoteError : Type 0 where
  not_found service_reference unavailable protocol_error : RemoteError
  request_failed : GatewayError → RemoteError

abbrev pub method_of : Call → Method
method_of (get _) = Gateway.get
method_of (delete _) = Gateway.delete
method_of (create _ _ _) = post
method_of (update _ _ _ _) = patch

-- The scope that `_create_service_authorization` asks for.
unfoldable pub scope_for : Method → ServiceScope
scope_for method = if is_retryable_read method then incidents_read else incidents_write

-- The principal that a route of the Incident Service takes.
unfoldable pub required_scope : Call → ServiceScope
required_scope (get _) = incidents_read
required_scope _ = incidents_write

-- `_require_status`
unfoldable pub require_status : {A : Type 0} → ℕ → ℕ → Result RemoteError A → Result RemoteError A
require_status expected_status status next =
    if status == expected_status
    then next
    else (if leb 500 status then err unavailable else err protocol_error)

module _ (of_json : String → Option Incident) where
  -- `_parse_incident`
  unfoldable pub parse_incident : Reply → Result RemoteError (Option Incident)
  parse_incident reply = elim (of_json reply.body) [
    | none ↦ err protocol_error
    | some incident ↦ ok (some incident)
  ]

  -- `get_by_id`, `delete`, `create` and `update`, after the request.
  unfoldable pub on_reply : Call → Reply → Result RemoteError (Option Incident)
  unfolding require_status parse_incident
  on_reply (get _) reply =
      if reply.status == 404
      then err not_found
      else require_status 200 reply.status (parse_incident reply)
  on_reply (delete _) reply =
      if reply.status == 404 then err not_found else require_status 204 reply.status (ok none)
  on_reply (create _ _ _) reply =
      if reply.status == 404
      then err service_reference
      else require_status 201 reply.status (parse_incident reply)
  on_reply (update _ _ _ _) reply =
      if reply.status == 404
      then err not_found
      else (if reply.status == 400
          then err service_reference
          else require_status 200 reply.status (parse_incident reply))

  unfoldable pub call_remote :
      Call → Result GatewayError Reply → Result RemoteError (Option Incident)
  unfolding on_reply
  call_remote call (err e) = err (request_failed e)
  call_remote call (ok reply) = on_reply call reply

-- The payload that the route of the Core Backend creates an incident with.
unfoldable pub stamped_payload : User → IncidentCreate → IncidentCreate
stamped_payload current_user payload = record payload {
  reported_by_email = some current_user.email;
}

-- `IncidentGatewayUnavailableError` and its subclass are answered 503, any other exception 500.
abbrev pub failure_status : GatewayError → ℕ
failure_status Gateway.other_exception = 500
failure_status Gateway.retry_loop_exited = 500
failure_status _ = 503

-- The status that the routes of the Core Backend answer with; 503 and 502 are those of
-- `incident_gateway_http_exception`.
unfoldable pub public_status : Call → Result RemoteError (Option Incident) → ℕ
public_status (create _ _ _) (ok _) = 201
public_status (delete _) (ok _) = 204
public_status _ (ok _) = 200
public_status _ (err not_found) = 404
public_status (create _ _ _) (err service_reference) = 404
public_status (update _ _ _ _) (err service_reference) = 400
public_status _ (err service_reference) = 500
public_status _ (err unavailable) = 503
public_status _ (err protocol_error) = 502
public_status _ (err (request_failed e)) = failure_status e
