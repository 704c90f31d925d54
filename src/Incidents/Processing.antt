-- ===== src/Incidents/Processing.antt =====
-- incident-service/app/services/incident_task_processing_service.py: class
-- IncidentTaskProcessingService, and `process_incident_with_postgres` of
-- incident-service/app/workers/incident_task_reconciler.py, one transaction. Times, new UUIDs and the
-- failures of the database are arguments; `UUID(task_id)` is Python's.
use opsflow.Prelude.{
  ℕ, Bool, true, false, not, ◌||◌, String, Option, none, some, ◌==◌, if◌then◌else◌,
}
use opsflow.Incidents
use opsflow.Incidents.{
  Incident, IncidentTable, IncidentStatus, opened, investigating, monitoring, resolved,
}
use opsflow.Incidents.Filters.{status_number}
use opsflow.Outbox.Messages.{
  CompletionMessage, CompletionOutbox, stored, collision, create_completion, event_schema_version,
  incident_task_completed_event_type,
}

pub record IncidentProcessingResult : Type 0 where
  pub incident_id : ℕ
  pub status : IncidentStatus
  pub changed : Bool
  pub acknowledged_at : Option ℕ

abbrev pub target_status : IncidentStatus → IncidentStatus
target_status opened = investigating
target_status investigating = investigating
target_status monitoring = monitoring
target_status resolved = resolved

abbrev pub target_acknowledged_at : ℕ → IncidentStatus → Option ℕ → Option ℕ
target_acknowledged_at now opened none = some now
target_acknowledged_at now investigating none = some now
target_acknowledged_at now monitoring none = none
target_acknowledged_at now resolved none = none
target_acknowledged_at now status (some at) = some at

abbrev same_time : Option ℕ → Option ℕ → Bool
same_time none none = true
same_time (some a) (some b) = a == b
same_time none (some _) = false
same_time (some _) none = false

abbrev pub is_changed : ℕ → IncidentStatus → Option ℕ → Bool
is_changed now status acknowledged_at =
    not (status_number (target_status status) == status_number status)
    || not (same_time (target_acknowledged_at now status acknowledged_at) acknowledged_at)

-- `process`, on the incident that is read and the table that is written: `acknowledging` and `now` are
-- the two readings of the clock.
unfoldable pub process_read :
    (acknowledging now : ℕ)
    → Incident
    → IncidentTable
    → Option (IncidentProcessingResult × IncidentTable)
unfolding Incidents.update
process_read acknowledging now existing table =
    let status = target_status existing.status in
    let acknowledged_at =
      target_acknowledged_at acknowledging existing.status existing.acknowledged_at in
    if is_changed acknowledging existing.status existing.acknowledged_at
    then (elim (Incidents.update
        (record existing { status = status; acknowledged_at = acknowledged_at; updated_at = now })
        table) [
          | none ↦ none
          | some table' ↦ some (
            record {
              incident_id = existing.id;
              status = status;
              changed = true;
              acknowledged_at = acknowledged_at;
            },
            table',
          )
        ])
    else some (
      record {
        incident_id = existing.id;
        status = existing.status;
        changed = false;
        acknowledged_at = existing.acknowledged_at;
      },
      table,
    )

-- `process`; `none` is `IncidentNotFoundError`, and a write finds the row that was just read.
unfoldable pub process :
    (acknowledging now : ℕ) → ℕ → IncidentTable → Option (IncidentProcessingResult × IncidentTable)
unfolding Incidents.get_by_id process_read
process acknowledging now incident_id table = elim (Incidents.get_by_id incident_id table) [
  | none ↦ none
  | some existing ↦ process_read acknowledging now existing table
]

pub record Processed : Type 0 where
  pub incidents : IncidentTable
  pub completions : CompletionOutbox

-- What a run draws: the clock three times, and the ids of the row and of the event.
pub record CompletionDraw : Type 0 where
  pub acknowledging : ℕ
  pub now : ℕ
  pub occurred_at : ℕ
  pub outbox_id : ℕ
  pub event_id : ℕ

-- What is returned or raised. A `malformed_task_id` is Python's `ValueError`, `task_collision` the error
-- of the outbox, and `retryable` the error for a database that fails.
pub data Outcome : Type 0 where
  returned : IncidentProcessingResult → Outcome
  incident_not_found malformed_task_id task_collision retryable : Outcome

abbrev pub completion_message :
    CompletionDraw → ℕ → String → IncidentProcessingResult → CompletionMessage
completion_message draw task_id correlation_id result = record {
  event_id = draw.event_id;
  incident_id = result.incident_id;
  task_id = task_id;
  correlation_id = correlation_id;
  schema_version = event_schema_version;
  event_type = incident_task_completed_event_type;
  status = result.status;
  acknowledged_at = result.acknowledged_at;
  occurred_at = draw.occurred_at;
}

-- `process_incident_with_postgres`, for a database whose statements work. Only a commit keeps what the
-- transaction wrote; every error rolls it back or closes the session with nothing committed.
unfoldable pub process_incident_with_postgres :
    (commits : Bool) → CompletionDraw → Option ℕ → ℕ → String → Processed → Outcome × Processed
unfolding process create_completion
process_incident_with_postgres commits draw none incident_id correlation_id db =
    (malformed_task_id, db)
process_incident_with_postgres commits draw (some task_id) incident_id correlation_id db =
    elim (process draw.acknowledging draw.now incident_id db.incidents) [
      | none ↦ (incident_not_found, db)
      | some (result, table) ↦
          (elim (create_completion draw.outbox_id
            (completion_message draw task_id correlation_id result) db.completions) [
              | collision ↦ (task_collision, db)
              | stored message outbox ↦
                  if commits
                  then (returned result, record { incidents = table; completions = outbox })
                  else (retryable, db)
            ])
    ]
