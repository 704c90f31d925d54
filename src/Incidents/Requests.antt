-- ===== src/Incidents/Requests.antt =====
-- Requests as transactions, incident-service/app/db/session.py: a request that raises is rolled back,
-- any other is committed. The reconciler's processing is one of them.
use opsflow.Prelude.{ℕ, String, Option, none, some, List, [], ◌∷◌, Result, ok, err}
use opsflow.Incidents.{Incident, IncidentTable}
use opsflow.Incidents.Service.{
  Database, IncidentError, Catalog, Draw, IncidentCreate, IncidentUpdate, create_incident,
  update_incident, delete_incident,
}
use opsflow.Incidents.Processing.{IncidentProcessingResult, process}

pub data Request : Type 0 where
  create_request : Draw → IncidentCreate → Option String → Request
  update_request : (resolving now incident_id : ℕ) → IncidentUpdate → Request
  delete_request : ℕ → Request
  process_request : (acknowledging now incident_id : ℕ) → Request

abbrev pub committed : Database → Result IncidentError (Incident × Database) → Database
committed db (ok (_, db')) = db'
committed db (err _) = db

abbrev pub committed_delete : Database → Result IncidentError Database → Database
committed_delete db (ok db') = db'
committed_delete db (err _) = db

abbrev pub committed_process :
    Database → Option (IncidentProcessingResult × IncidentTable) → Database
committed_process db (some (_, table)) = record db { incidents = table }
committed_process db none = db

-- `get_db_session`
unfoldable pub handle : Catalog → Request → Database → Database
unfolding create_incident update_incident delete_incident process
handle service_exists (create_request draw payload correlation_id) db =
    committed db (create_incident service_exists draw payload correlation_id db)
handle service_exists (update_request resolving now incident_id payload) db =
    committed db (update_incident service_exists resolving now incident_id payload db)
handle service_exists (delete_request incident_id) db =
    committed_delete db (delete_incident incident_id db)
handle service_exists (process_request acknowledging now incident_id) db =
    committed_process db (process acknowledging now incident_id db.incidents)

unfoldable pub handle_all : Catalog → List Request → Database → Database
handle_all service_exists [] db = db
handle_all service_exists (request ∷ requests) db =
    handle_all service_exists requests (handle service_exists request db)
