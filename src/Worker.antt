-- ===== src/Worker.antt =====
-- The task worker Lambda, lambdas/task-worker/src/task_worker: handler.py, dispatcher.py,
-- handlers/incident_processing.py and execution_state.py. Each record of a batch carries the answers
-- of the services that its processing calls; JSON, the task schema, `str.strip` and `UUID` are
-- parameters.
pub mod Store
pub mod Handler
pub mod Acceptance
pub mod Batch
pub mod Envelope
use text.Mathlib.Text.{◌==◌ as str_eq}
use opsflow.Prelude.{
  ℕ, ◌+◌, Bool, true, false, not, ◌&&◌, String, Option, none, some, List, [], ◌∷◌, Result, ok, err,
  if◌then◌else◌,
}
use opsflow.Execution.{Execution}

-- What is read of `payload`: whether it is an object, and its `incident_id`.
pub data Payload : Type 0 where
  not_an_object no_incident_id incident_id_not_text : Payload
  incident_id_text : String → Payload

-- A task envelope that meets the schema.
pub record Task : Type 0 where
  pub task_id : String
  pub task_type : String
  pub schema_version : String
  pub producer : String
  pub idempotency_key : String
  pub correlation_id : String
  pub causation_id : Option String
  pub payload : Payload
  pub metadata : Option (List (String × String))
  pub created_at : String

-- A record of the table of executions. `execution` holds the attributes that reconciliation uses.
pub record TaskItem : Type 0 where
  pub task_id : String
  pub incident_id : String
  pub task_type : String
  pub schema_version : String
  pub producer : String
  pub idempotency_key : String
  pub correlation_id : String
  pub payload : Payload
  pub created_at : String
  pub accepted_at : ℕ
  pub expiration : ℕ
  pub causation_id : Option String
  pub metadata : Option (List (String × String))
  pub execution : Execution

abbrev pub Table : Type 0
Table = List TaskItem

-- The errors that processing one record raises.
pub data TaskError : Type 0 where
  invalid_sqs_record invalid_task_envelope invalid_incident_processing_task unsupported_task_type
        collision database_error idempotency_error :
      TaskError
