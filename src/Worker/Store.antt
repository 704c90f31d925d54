-- ===== src/Worker/Store.antt =====
-- lambdas/task-worker/src/task_worker/execution_state.py: class DynamoDbTaskExecutionStore.
use text.Mathlib.Text.{◌==◌ as str_eq}
use opsflow.Prelude.{
  ℕ, ◌+◌, Bool, true, false, ◌&&◌, String, Option, none, some, [], ◌∷◌, Result, ok, err,
  if◌then◌else◌,
}
use opsflow.Execution.{Execution, ready_for_incident_service}
use opsflow.Worker.{Task, TaskItem, Table, TaskError, collision, database_error}

-- What DynamoDB answers to `put_item`: it applies the condition, or it fails otherwise. `expired`
-- says that the record that fails the condition is not found when it is read.
pub data PutAnswer : Type 0 where
  applied : (expired : Bool) → PutAnswer
  failing : PutAnswer

unfoldable pub get_item : String → Table → Option TaskItem
get_item task_id [] = none
get_item task_id (item ∷ items) =
    if str_eq item.task_id task_id then some item else get_item task_id items

abbrev pub accepted_execution : ℕ → Execution
accepted_execution accepted_at = record {
  status = ready_for_incident_service;
  reconciliation_attempts = 0;
  lease_expires_at = none;
  reconciliation_token = none;
  reconciliation_started_at = none;
  updated_at = some accepted_at;
  completed_at = none;
  failed_at = none;
  result = none;
  last_error = none;
}

abbrev pub new_item : (accepted_at epoch expiration_seconds : ℕ) → Task → String → TaskItem
new_item accepted_at epoch expiration_seconds task incident_id = record {
  task_id = task.task_id;
  incident_id = incident_id;
  task_type = task.task_type;
  schema_version = task.schema_version;
  producer = task.producer;
  idempotency_key = task.idempotency_key;
  correlation_id = task.correlation_id;
  payload = task.payload;
  created_at = task.created_at;
  accepted_at = accepted_at;
  expiration = epoch + expiration_seconds;
  causation_id = task.causation_id;
  metadata = task.metadata;
  execution = accepted_execution accepted_at;
}

-- `_validate_existing_record`: whether no field is mismatched.
unfoldable pub validate_existing_record : TaskItem → Task → String → Bool
validate_existing_record item task incident_id =
    str_eq item.task_id task.task_id
    && (str_eq item.incident_id incident_id
        && (str_eq item.task_type task.task_type
            && (str_eq item.idempotency_key task.idempotency_key
                && str_eq item.correlation_id task.correlation_id)))

-- `accept_incident_processing_task`: `true` if the record is new.
unfoldable pub accept_incident_processing_task :
    (accepted_at epoch expiration_seconds : ℕ)
    → PutAnswer
    → Task
    → String
    → Table
    → Result TaskError Bool × Table
unfolding get_item validate_existing_record
accept_incident_processing_task accepted_at epoch expiration_seconds failing task incident_id
      table =
    (err database_error, table)
accept_incident_processing_task accepted_at epoch expiration_seconds (applied expired) task
      incident_id table =
    elim (get_item task.task_id table) [
      | none ↦ (ok true, new_item accepted_at epoch expiration_seconds task incident_id ∷ table)
      | some item ↦
          if expired
          then (err collision, table)
          else (if validate_existing_record item task incident_id
              then (ok false, table)
              else (err collision, table))
    ]
