-- ===== src/Incidents/Service.antt =====
-- incident-service/app/services/incident_service.py: class IncidentService. The times, the new UUIDs,
-- the texts of UUIDs and what the service catalogue answers are arguments; the state is what the
-- session of the request writes.
use Prim.Native.String.{◌++◌ as str_append}
use text.Mathlib.Text.{◌==◌ as str_eq}
use opsflow.Prelude.{
  ℕ, Bool, true, false, String, Option, none, some, [], ◌∷◌, Result, ok, err, ◌==◌, if◌then◌else◌,
}
use opsflow.Incidents
use opsflow.Incidents.{
  Incident, IncidentTable, IncidentSeverity, IncidentStatus, opened, investigating, monitoring,
  resolved,
}
use opsflow.Incidents.Filters.{list_by_service}
use opsflow.Outbox.Messages.{
  TaskMessage, TaskOutbox, create_task, task_schema_version, incident_processing_task_type,
}

pub record Database : Type 0 where
  pub incidents : IncidentTable
  pub tasks : TaskOutbox

-- `IncidentNotFoundError`, `IncidentServiceReferenceError`, `ServiceCatalogUnavailableError`, and the
-- repository's `LookupError`.
pub data IncidentError : Type 0 where
  incident_not_found service_reference catalog_unavailable lookup_error : IncidentError

-- `service_exists` of the catalogue, which answers or raises that it is unavailable.
abbrev pub Catalog : Type 0
Catalog = ℕ → Result IncidentError Bool

infixl 5 ◌>>=◌ ◌>>◌
abbrev ◌>>=◌ {ℓ κ} :
    {A : Type ℓ} {B : Type κ}
    → Result IncidentError A
    → (A → Result IncidentError B)
    → Result IncidentError B
ok a >>= f = f a
err e >>= f = err e

abbrev ◌>>◌ {ℓ} :
    {B : Type ℓ} → Result IncidentError (Unit {0}) → Result IncidentError B → Result IncidentError B
m >> k = m >>= λ _. k

-- `IncidentCreate`, after its validation, and `IncidentUpdate`: a field is `none` if it is not given
-- or null. `acknowledged_at` tells the two apart.
pub record IncidentCreate : Type 0 where
  pub title : String
  pub service_id : ℕ
  pub severity : IncidentSeverity
  pub status : IncidentStatus
  pub summary : String
  pub assignee : String
  pub source : String
  pub customer_impacting : Bool
  pub acknowledged_at : Option ℕ
  pub reported_by_email : Option String
  pub started_at : Option ℕ

pub record IncidentUpdate : Type 0 where
  pub title : Option String
  pub service_id : Option ℕ
  pub severity : Option IncidentSeverity
  pub status : Option IncidentStatus
  pub summary : Option String
  pub assignee : Option String
  pub source : Option String
  pub customer_impacting : Option Bool
  pub acknowledged_at : Option (Option ℕ)
  pub started_at : Option ℕ
  pub resolved_at : Option ℕ

abbrev pub or_else {ℓ} : {A : Type ℓ} → Option A → A → A
or_else none b = b
or_else (some a) b = a

abbrev pub is_resolved : IncidentStatus → Bool
is_resolved resolved = true
is_resolved _ = false

-- `get_by_id`
unfoldable pub get_incident : ℕ → Database → Result IncidentError Incident
unfolding Incidents.get_by_id
get_incident incident_id db = elim (Incidents.get_by_id incident_id db.incidents) [
  | none ↦ err incident_not_found
  | some incident ↦ ok incident
]

-- `_ensure_service_exists`
unfoldable pub ensure_service_exists : Catalog → ℕ → Result IncidentError (Unit {0})
ensure_service_exists service_exists service_id =
    service_exists service_id >>= λ found. if found then ok tt else err service_reference

-- `_resolve_timestamp`
unfoldable pub resolve_timestamp : ℕ → Incident → IncidentUpdate → IncidentStatus → Option ℕ
resolve_timestamp now existing payload updated_status =
    if is_resolved updated_status
    then (elim payload.resolved_at [
      | some at ↦ some at
      | none ↦ some (or_else existing.resolved_at now)
    ])
    else none

-- What `create` draws: the time, the new UUIDs, and the texts of UUIDs.
pub record Draw : Type 0 where
  pub now : ℕ
  pub incident_id : ℕ
  pub task_id : ℕ
  pub new_correlation_id : String
  pub outbox_id : ℕ
  pub uuid_text : ℕ → String

abbrev pub new_incident : Draw → IncidentCreate → Incident
new_incident draw payload = record {
  id = draw.incident_id;
  title = payload.title;
  service_id = payload.service_id;
  severity = payload.severity;
  status = payload.status;
  summary = payload.summary;
  assignee = payload.assignee;
  started_at = or_else payload.started_at draw.now;
  resolved_at = if is_resolved payload.status then some draw.now else none;
  created_at = draw.now;
  updated_at = draw.now;
  source = payload.source;
  customer_impacting = payload.customer_impacting;
  acknowledged_at = payload.acknowledged_at;
  reported_by_email = payload.reported_by_email;
}

-- `correlation_id if correlation_id else str(uuid4())`
abbrev pub resolved_correlation_id : Draw → Option String → String
resolved_correlation_id draw none = draw.new_correlation_id
resolved_correlation_id draw (some text) = if str_eq text "" then draw.new_correlation_id else text

abbrev pub process_key : (ℕ → String) → ℕ → String
process_key uuid_text incident_id =
    str_append "incident:" (str_append (uuid_text incident_id) ":process:v1")

abbrev pub processing_task : Draw → Option String → TaskMessage
processing_task draw correlation_id = record {
  task_id = draw.task_id;
  incident_id = draw.incident_id;
  schema_version = task_schema_version;
  task_type = incident_processing_task_type;
  idempotency_key = process_key draw.uuid_text draw.incident_id;
  correlation_id = resolved_correlation_id draw correlation_id;
  causation_id = none;
  payload = ("incident_id", draw.uuid_text draw.incident_id) ∷ [];
  metadata = ("source", "incident-service") ∷ ("operation", "incident.create") ∷ [];
  created_at = draw.now;
}

-- `create`
unfoldable pub create_incident :
    Catalog
    → Draw
    → IncidentCreate
    → Option String
    → Database
    → Result IncidentError (Incident × Database)
unfolding ensure_service_exists Incidents.create create_task
create_incident service_exists draw payload correlation_id db = do
  ensure_service_exists service_exists payload.service_id
  let incident = new_incident draw payload
  ok (
    incident,
    record {
      incidents = Incidents.create incident db.incidents;
      tasks = create_task draw.outbox_id (processing_task draw correlation_id) db.tasks;
    },
  )

-- The two calls of `ensure_service_exists` that `update` may make are one call at most.
abbrev pub ensure_moved : Catalog → Option ℕ → ℕ → Result IncidentError (Unit {0})
unfolding ensure_service_exists
ensure_moved service_exists none service_id = ok tt
ensure_moved service_exists (some wanted) service_id =
    if wanted == service_id then ok tt else ensure_service_exists service_exists wanted

unfoldable pub updated_incident : ℕ → ℕ → IncidentUpdate → Incident → Incident
unfolding resolve_timestamp
updated_incident resolving now payload existing =
    let status = or_else payload.status existing.status in
    record existing {
      title = or_else payload.title existing.title;
      service_id = or_else payload.service_id existing.service_id;
      severity = or_else payload.severity existing.severity;
      status = status;
      summary = or_else payload.summary existing.summary;
      assignee = or_else payload.assignee existing.assignee;
      source = or_else payload.source existing.source;
      customer_impacting = or_else payload.customer_impacting existing.customer_impacting;
      acknowledged_at = or_else payload.acknowledged_at existing.acknowledged_at;
      started_at = or_else payload.started_at existing.started_at;
      resolved_at = resolve_timestamp resolving existing payload status;
      updated_at = now;
    }

-- `update`; the clock is read for `resolved_at` and again for `updated_at`.
unfoldable pub update_incident :
    Catalog
    → (resolving now : ℕ) → ℕ
    → IncidentUpdate
    → Database
    → Result IncidentError (Incident × Database)
unfolding get_incident ensure_service_exists updated_incident Incidents.update
update_incident service_exists resolving now incident_id payload db = do
  existing ← get_incident incident_id db
  ensure_moved service_exists payload.service_id existing.service_id
  let updated = updated_incident resolving now payload existing
  elim (Incidents.update updated db.incidents) [
    | none ↦ err lookup_error
    | some table ↦ ok (updated, record db { incidents = table })
  ]

-- `delete`
unfoldable pub delete_incident : ℕ → Database → Result IncidentError Database
unfolding get_incident Incidents.delete
delete_incident incident_id db = do
  existing ← get_incident incident_id db
  ok (record db { incidents = Incidents.delete incident_id db.incidents })

-- `list_for_service`
unfoldable pub list_for_service :
    Catalog → ℕ → ℕ → ℕ → Database → Result IncidentError IncidentTable
unfolding ensure_service_exists list_by_service
list_for_service service_exists service_id offset limit db = do
  ensure_service_exists service_exists service_id
  ok (list_by_service service_id offset limit db.incidents)
