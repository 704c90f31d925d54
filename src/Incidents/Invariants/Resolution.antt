-- ===== src/Incidents/Invariants/Resolution.antt =====
-- The time of resolution of incidents.
use opsflow.Prelude.{ℕ, ◌≡◌, Bool, true, false, Option, none, some, List, [], ◌∷◌, arith}
use opsflow.Incidents.{Incident}
use opsflow.Incidents.Rows.{AllRows}
use opsflow.Incidents.Service.{
  Database, Catalog, Draw, IncidentCreate, IncidentUpdate, is_resolved, updated_incident,
  resolve_timestamp, new_incident,
}
use opsflow.Incidents.Requests.{
  Request, create_request, update_request, delete_request, process_request, handle, handle_all,
}
use opsflow.Incidents.Invariants.{Kept, processed_incident, handle-AllRows}

abbrev pub is_given {ℓ} : {A : Type ℓ} → Option A → Bool
is_given none = false
is_given (some _) = true

-- An incident has a time of resolution exactly if it is resolved.
abbrev pub IsConsistent : Incident → Type 0
IsConsistent row = is_given row.resolved_at ≡ is_resolved row.status

new_incident-IsConsistent :
    (draw : Draw) (payload : IncidentCreate) → IsConsistent (new_incident draw payload)
new_incident-IsConsistent draw payload = ground arith

updated_incident-IsConsistent :
    (resolving now : ℕ) (payload : IncidentUpdate) (existing : Incident)
    → IsConsistent (updated_incident resolving now payload existing)
unfolding updated_incident resolve_timestamp
updated_incident-IsConsistent resolving now payload existing = ground arith

processed_incident-IsConsistent :
    (acknowledging now : ℕ) (existing : Incident)
    → IsConsistent existing
    → IsConsistent (processed_incident acknowledging now existing)
processed_incident-IsConsistent acknowledging now existing h = ground arith

Kept-IsConsistent : (request : Request) → Kept IsConsistent request
Kept-IsConsistent (create_request draw payload _) = new_incident-IsConsistent draw payload
Kept-IsConsistent (update_request resolving now _ payload) =
    λ existing _. updated_incident-IsConsistent resolving now payload existing
Kept-IsConsistent (delete_request _) = tt
Kept-IsConsistent (process_request acknowledging now _) =
    processed_incident-IsConsistent acknowledging now

-- Where every incident has a time of resolution exactly if it is resolved, it is so after every
-- sequence of requests to create, update, delete and process incidents, those that fail included.
pub handle_all-resolved :
    (service_exists : Catalog) (requests : List Request) (db : Database)
    → AllRows IsConsistent db.incidents
    → AllRows IsConsistent (handle_all service_exists requests db).incidents
unfolding handle_all
handle_all-resolved service_exists [] db all = all
handle_all-resolved service_exists (request ∷ requests) db all =
    handle_all-resolved service_exists requests (handle service_exists request db)
      (handle-AllRows IsConsistent service_exists db all request (Kept-IsConsistent request))
