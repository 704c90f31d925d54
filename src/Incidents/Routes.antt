-- ===== src/Incidents/Routes.antt =====
-- incident-service/app/api/routes/incidents.py, with the transaction of a request. A request names one
-- incident; the bodies of errors are left out, and an incident's JSON is a parameter.
use opsflow.Prelude.{ℕ, String, Option, none, some, Result, ok, err}
use opsflow.Incidents.{Incident}
use opsflow.Incidents.Service.{
  Database, IncidentError, incident_not_found, service_reference, catalog_unavailable, Catalog,
  Draw, IncidentCreate, IncidentUpdate, get_incident, create_incident, update_incident,
  delete_incident,
}

pub data Call : Type 0 where
  get delete : ℕ → Call
  create : Draw → IncidentCreate → Option String → Call
  update : (resolving now incident_id : ℕ) → IncidentUpdate → Call

pub record Reply : Type 0 where
  pub status : ℕ
  pub body : String

-- The `except` clauses of each route; any other error is a response 500.
unfoldable pub error_status : Call → IncidentError → ℕ
error_status (get _) incident_not_found = 404
error_status (delete _) incident_not_found = 404
error_status (create _ _ _) service_reference = 404
error_status (create _ _ _) catalog_unavailable = 503
error_status (update _ _ _ _) incident_not_found = 404
error_status (update _ _ _ _) service_reference = 400
error_status (update _ _ _ _) catalog_unavailable = 503
error_status _ _ = 500

unfoldable pub success_status : Call → ℕ
success_status (create _ _ _) = 201
success_status (delete _) = 204
success_status _ = 200

-- What the service does for a call: its result, without an incident for a deletion, and the rows.
unfoldable pub run_service :
    Catalog → Call → Database → Result IncidentError (Option Incident × Database)
unfolding get_incident create_incident update_incident delete_incident
run_service service_exists (get incident_id) db = elim (get_incident incident_id db) [
  | ok incident ↦ ok (some incident, db)
  | err e ↦ err e
]
run_service service_exists (delete incident_id) db = elim (delete_incident incident_id db) [
  | ok db' ↦ ok (none, db')
  | err e ↦ err e
]
run_service service_exists (create draw payload correlation_id) db =
    elim (create_incident service_exists draw payload correlation_id db) [
      | ok (incident, db') ↦ ok (some incident, db')
      | err e ↦ err e
    ]
run_service service_exists (update resolving now incident_id payload) db =
    elim (update_incident service_exists resolving now incident_id payload db) [
      | ok (incident, db') ↦ ok (some incident, db')
      | err e ↦ err e
    ]

-- The reply; an error rolls the transaction back.
abbrev pub replied :
    (Incident → String)
    → Call
    → Database
    → Result IncidentError (Option Incident × Database)
    → Reply × Database
replied to_json call db (ok (none, db')) = (record { status = success_status call; body = "" }, db')
replied to_json call db (ok (some incident, db')) =
    (record { status = success_status call; body = to_json incident }, db')
replied to_json call db (err e) = (record { status = error_status call e; body = "" }, db)

unfoldable pub serve : (Incident → String) → Catalog → Call → Database → Reply × Database
unfolding run_service error_status success_status
serve to_json service_exists call db = replied to_json call db (run_service service_exists call db)
