-- ===== src/Incidents.antt =====
-- incident-service/app/domain/incident.py and
-- incident-service/app/repositories/sqlalchemy_incident_repository.py: the table `incidents`. The
-- table is the list of its rows; a UUID is a number that is only compared, a datetime is a number of
-- microseconds.
pub mod Filters
pub mod Service
pub mod Processing
pub mod Rows
pub mod Requests
pub mod Routes
pub mod Invariants
use opsflow.Prelude.{ℕ, Bool, String, Option, none, some, List, [], ◌∷◌, ◌++◌, ◌==◌, if◌then◌else◌}

pub data IncidentSeverity : Type 0 where
  sev_1 sev_2 sev_3 sev_4 : IncidentSeverity

-- `open` is a reserved word.
pub data IncidentStatus : Type 0 where
  opened investigating monitoring resolved : IncidentStatus

pub record Incident : Type 0 where
  pub id : ℕ
  pub title : String
  pub service_id : ℕ
  pub severity : IncidentSeverity
  pub status : IncidentStatus
  pub summary : String
  pub assignee : String
  pub started_at : ℕ
  pub resolved_at : Option ℕ
  pub created_at : ℕ
  pub updated_at : ℕ
  pub source : String
  pub customer_impacting : Bool
  pub acknowledged_at : Option ℕ
  pub reported_by_email : Option String

abbrev pub IncidentTable : Type 0
IncidentTable = List Incident

-- `get_by_id`
unfoldable pub get_by_id : ℕ → IncidentTable → Option Incident
get_by_id incident_id [] = none
get_by_id incident_id (row ∷ rows) =
    if row.id == incident_id then some row else get_by_id incident_id rows

-- `create`
unfoldable pub create : Incident → IncidentTable → IncidentTable
create incident table = table ++ incident ∷ []

-- `update`: every column of the row with the incident's id. A missing row is `LookupError`.
unfoldable pub write : Incident → IncidentTable → IncidentTable
write incident [] = []
write incident (row ∷ rows) =
    let rest = write incident rows in if row.id == incident.id then incident ∷ rows else row ∷ rest

unfoldable pub update : Incident → IncidentTable → Option IncidentTable
unfolding write
update incident table = elim (get_by_id incident.id table) [
  | none ↦ none
  | some _ ↦ some (write incident table)
]

-- `delete`
unfoldable pub delete : ℕ → IncidentTable → IncidentTable
delete incident_id [] = []
delete incident_id (row ∷ rows) =
    let rest = delete incident_id rows in if row.id == incident_id then rows else row ∷ rest
