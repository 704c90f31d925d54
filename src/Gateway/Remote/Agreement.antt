-- ===== src/Gateway/Remote/Agreement.antt =====
-- backend/app/gateways/http_incident_gateway.py against incident-service/app/api/routes/incidents.py:
-- what arrives of the service's results.
use opsflow.Prelude.{
  ℕ, Bool, Bool-cases, Option-cases, ◌⊎◌, inl, inr, ◌≡◌, refl, String, Option, none, some, Result,
  ok, err, arith,
}
use opsflow.Incidents
use opsflow.Incidents.{Incident}
use opsflow.Incidents.Service
use opsflow.Incidents.Service.{
  Database, Catalog, IncidentError, Draw, IncidentCreate, get_incident, delete_incident,
  create_incident, update_incident,
}
use opsflow.Incidents.Routes.{
  Call, get, delete, create, update, run_service, replied, serve, error_status, success_status,
}
use opsflow.Gateway.Remote.{
  RemoteError, not_found, service_reference, unavailable, method_of, scope_for, required_scope,
  parse_incident, call_remote,
}

-- A result of the service, as the Core Backend sees it.
abbrev pub seen :
    Result IncidentError (Option Incident × Database) → Result RemoteError (Option Incident)
seen (ok (incident, _)) = ok incident
seen (err Service.incident_not_found) = err not_found
seen (err Service.service_reference) = err service_reference
seen (err Service.catalog_unavailable) = err unavailable
seen (err Service.lookup_error) = err unavailable

-- The results that a call can have.
abbrev IsResult : Call → Result IncidentError (Option Incident × Database) → Type 0
IsResult (get _) (ok (none, _)) = ⊥
IsResult (create _ _ _) (ok (none, _)) = ⊥
IsResult (update _ _ _ _) (ok (none, _)) = ⊥
IsResult (delete _) (ok (some _, _)) = ⊥
IsResult (get _) (err Service.service_reference) = ⊥
IsResult (delete _) (err Service.service_reference) = ⊥
IsResult (create _ _ _) (err Service.incident_not_found) = ⊥
IsResult _ _ = Unit

-- The catalogue answers, or is unavailable.
abbrev pub IsCatalog : Catalog → Type 0
IsCatalog service_exists =
    (service_id : ℕ)
    → ((found : Bool) × (service_exists service_id ≡ ok found))
      ⊎ (service_exists service_id ≡ err Service.catalog_unavailable)

get_raises :
    (incident_id : ℕ) (db : Database)
    → get_incident incident_id db ≡ err Service.service_reference
    → ⊥
unfolding get_incident
get_raises incident_id db h = elim (Option-cases (Incidents.get_by_id incident_id db.incidents)) [
  | inl missing ↦ ground arith
  | inr (incident, there) ↦ ground arith
]

delete_raises :
    (incident_id : ℕ) (db : Database)
    → delete_incident incident_id db ≡ err Service.service_reference
    → ⊥
unfolding delete_incident
delete_raises incident_id db h =
    elim (Option-cases (Incidents.get_by_id incident_id db.incidents)) [
      | inl missing ↦ ground arith
      | inr (incident, there) ↦ ground arith
    ]

create_raises :
    (service_exists : Catalog) (draw : Draw) (payload : IncidentCreate)
    (correlation_id : Option String) (db : Database)
    → IsCatalog service_exists
    → create_incident service_exists draw payload correlation_id db ≡ err Service.incident_not_found
    → ⊥
unfolding create_incident
create_raises service_exists draw payload correlation_id db catalog h =
    elim (catalog payload.service_id) [
      | inl (found, answered) ↦ elim (Bool-cases found) [
        | inl there ↦ ground arith
        | inr missing ↦ ground arith
      ]
      | inr down ↦ ground arith
    ]

module _ (service_exists : Catalog) (catalog : IsCatalog service_exists) (db : Database) where
  run_service-IsResult : (call : Call) → IsResult call (run_service service_exists call db)
  unfolding run_service
  run_service-IsResult (get incident_id) = by_get (get_incident incident_id db) refl
    where
      by_get :
          (r : Result IncidentError Incident)
          → get_incident incident_id db ≡ r
          → IsResult
              (get incident_id)
              (elim r [ ok incident ↦ ok (some incident, db) | err e ↦ err e ])
      by_get (ok incident) e = tt
      by_get (err Service.service_reference) e = get_raises incident_id db e
      by_get (err _) e = tt
  run_service-IsResult (delete incident_id) = by_delete (delete_incident incident_id db) refl
    where
      by_delete :
          (r : Result IncidentError Database)
          → delete_incident incident_id db ≡ r
          → IsResult (delete incident_id) (elim r [ ok db' ↦ ok (none, db') | err e ↦ err e ])
      by_delete (ok db') e = tt
      by_delete (err Service.service_reference) e = delete_raises incident_id db e
      by_delete (err _) e = tt
  run_service-IsResult (create draw payload correlation_id) =
      by_create (create_incident service_exists draw payload correlation_id db) refl
    where
      by_create :
          (r : Result IncidentError (Incident × Database))
          → create_incident service_exists draw payload correlation_id db ≡ r
          → IsResult
              (create draw payload correlation_id)
              (elim r [ ok (incident, db') ↦ ok (some incident, db') | err e ↦ err e ])
      by_create (ok (incident, db')) e = tt
      by_create (err Service.incident_not_found) e =
          create_raises service_exists draw payload correlation_id db catalog e
      by_create (err _) e = tt
  run_service-IsResult (update resolving now incident_id payload) =
      by_update (update_incident service_exists resolving now incident_id payload db)
    where
      by_update :
          (r : Result IncidentError (Incident × Database))
          → IsResult
              (update resolving now incident_id payload)
              (elim r [ ok (incident, db') ↦ ok (some incident, db') | err e ↦ err e ])
      by_update (ok (incident, db')) = tt
      by_update (err e) = tt

-- The rows after a run: an error leaves them as they were.
abbrev pub committed_rows : Database → Result IncidentError (Option Incident × Database) → Database
committed_rows db (ok (_, db')) = db'
committed_rows db (err _) = db

module _ (to_json : Incident → String) (of_json : String → Option Incident) where
  parsed :
      (status : ℕ) (incident : Incident)
      → of_json (to_json incident) ≡ some incident
      → parse_incident of_json (record { status = status; body = to_json incident })
        ≡ ok (some incident)
  unfolding parse_incident
  parsed status incident read = rw (parse_incident, read) refl

  -- A reply says what its result was.
  replied-seen :
      (call : Call) (db : Database) (r : Result IncidentError (Option Incident × Database))
      → IsResult call r
      → ((incident : Incident) (db' : Database)
          → r ≡ ok (some incident, db')
          → of_json (to_json incident) ≡ some incident)
      → call_remote of_json call (ok (replied to_json call db r).0) ≡ seen r
  unfolding call_remote error_status success_status
  replied-seen (get i) db (ok (none, db')) possible read = absurd possible
  replied-seen (get i) db (ok (some incident, db')) possible read =
      parsed 200 incident (read incident db' refl)
  replied-seen (get i) db (err Service.incident_not_found) possible read = refl
  replied-seen (get i) db (err Service.service_reference) possible read = absurd possible
  replied-seen (get i) db (err Service.catalog_unavailable) possible read = refl
  replied-seen (get i) db (err Service.lookup_error) possible read = refl
  replied-seen (delete i) db (ok (none, db')) possible read = refl
  replied-seen (delete i) db (ok (some incident, db')) possible read = absurd possible
  replied-seen (delete i) db (err Service.incident_not_found) possible read = refl
  replied-seen (delete i) db (err Service.service_reference) possible read = absurd possible
  replied-seen (delete i) db (err Service.catalog_unavailable) possible read = refl
  replied-seen (delete i) db (err Service.lookup_error) possible read = refl
  replied-seen (create d p c) db (ok (none, db')) possible read = absurd possible
  replied-seen (create d p c) db (ok (some incident, db')) possible read =
      parsed 201 incident (read incident db' refl)
  replied-seen (create d p c) db (err Service.incident_not_found) possible read = absurd possible
  replied-seen (create d p c) db (err Service.service_reference) possible read = refl
  replied-seen (create d p c) db (err Service.catalog_unavailable) possible read = refl
  replied-seen (create d p c) db (err Service.lookup_error) possible read = refl
  replied-seen (update r n i p) db (ok (none, db')) possible read = absurd possible
  replied-seen (update r n i p) db (ok (some incident, db')) possible read =
      parsed 200 incident (read incident db' refl)
  replied-seen (update r n i p) db (err Service.incident_not_found) possible read = refl
  replied-seen (update r n i p) db (err Service.service_reference) possible read = refl
  replied-seen (update r n i p) db (err Service.catalog_unavailable) possible read = refl
  replied-seen (update r n i p) db (err Service.lookup_error) possible read = refl

  rows_after :
      (call : Call) (db : Database) (r : Result IncidentError (Option Incident × Database))
      → (replied to_json call db r).1 ≡ committed_rows db r
  rows_after call db (ok (none, db')) = refl
  rows_after call db (ok (some incident, db')) = refl
  rows_after call db (err e) = refl

  required_scope-asked : (call : Call) → scope_for (method_of call) ≡ required_scope call
  unfolding scope_for required_scope
  required_scope-asked (get _) = refl
  required_scope-asked (delete _) = refl
  required_scope-asked (create _ _ _) = refl
  required_scope-asked (update _ _ _ _) = refl

  -- Where the catalogue answers or is unavailable and the JSON of the resulting incident is read back,
  -- the gateway makes of the Incident Service's reply to any call what the service's run of it came
  -- to: its incident, or its error, an unavailable catalogue and an internal error as an unavailable
  -- service. The token for the call has the scope that its route requires, and the rows are those
  -- that the run committed.
  pub remote_agrees :
      (service_exists : Catalog) (call : Call) (db : Database)
      → IsCatalog service_exists
      → ((incident : Incident) (db' : Database)
          → run_service service_exists call db ≡ ok (some incident, db')
          → of_json (to_json incident) ≡ some incident)
      → (call_remote of_json call (ok (serve to_json service_exists call db).0)
          ≡ seen (run_service service_exists call db))
        × (scope_for (method_of call) ≡ required_scope call)
        × ((serve to_json service_exists call db).1
            ≡ committed_rows db (run_service service_exists call db))
  unfolding serve
  remote_agrees service_exists call db catalog read =
      let run = run_service service_exists call db in
      (
        replied-seen call db run (run_service-IsResult service_exists catalog db call) read,
        required_scope-asked call,
        rows_after call db run,
      )
