-- ===== src/Worker/Handler.antt =====
-- lambdas/task-worker/src/task_worker: handler.py, dispatcher.py, handlers/incident_processing.py.
-- `incident.notification.requested` only writes a log, which is not modelled.
use text.Mathlib.Text.{◌==◌ as str_eq}
use opsflow.Prelude.{
  ℕ, Bool, String, Option, none, some, List, [], ◌∷◌, Result, ok, err, if◌then◌else◌,
}
use opsflow.Worker.{
  Payload, not_an_object, no_incident_id, incident_id_not_text, incident_id_text, Task, Table,
  TaskError, invalid_sqs_record, invalid_task_envelope, invalid_incident_processing_task,
  unsupported_task_type, idempotency_error,
}
use opsflow.Worker.Store.{PutAnswer, accept_incident_processing_task}

-- What the idempotency layer of Powertools does with a task: it calls the processor; it has the result
-- of an earlier call with the same key; it raises an error of its own.
pub data Idempotency : Type 0 where
  calls completed_before raises : Idempotency

-- What a record's processing meets.
pub record Answers : Type 0 where
  pub idempotency : Idempotency
  pub accepted_at : ℕ
  pub epoch : ℕ
  pub put : PutAnswer

-- A record of an SQS event; `body` is `none` if it is no text.
pub data SqsRecord : Type 0 where
  malformed_record without_message_id : SqsRecord
  message : String → Option String → Answers → SqsRecord

-- Python's `str.strip` and `str(UUID(…))`, and what a body is to `json.loads` and the task schema:
-- `none` if it is no JSON, `some none` if it does not meet the schema.
pub record Python : Type 0 where
  pub strip : String → String
  pub uuid : String → Option String
  pub parsed : String → Option (Option Task)

-- The result of a handler, without its log.
abbrev pub done : Result TaskError Bool × Table → Result TaskError (Unit {0}) × Table
done (ok _, table) = (ok tt, table)
done (err e, table) = (err e, table)

abbrev pub note_failure :
    String → Result TaskError (Unit {0}) → Option (List String) → Option (List String)
note_failure message_id (ok _) failures = failures
note_failure message_id (err _) none = none
note_failure message_id (err _) (some failures) = some (message_id ∷ failures)

module _ (python : Python) where
  -- `_incident_id_from_task`
  unfoldable pub incident_id_from_task : Payload → Result TaskError String
  incident_id_from_task not_an_object = err invalid_incident_processing_task
  incident_id_from_task no_incident_id = err invalid_incident_processing_task
  incident_id_from_task incident_id_not_text = err invalid_incident_processing_task
  incident_id_from_task (incident_id_text text) =
      if str_eq (python.strip text) ""
      then err invalid_incident_processing_task
      else (elim (python.uuid text) [
        | none ↦ err invalid_incident_processing_task
        | some incident_id ↦ ok incident_id
      ])

  -- `_parse_record_body` and `validate_task_envelope`
  unfoldable pub task_of : Option String → Result TaskError Task
  task_of none = err invalid_sqs_record
  task_of (some body) = elim (python.parsed body) [
    | none ↦ err invalid_sqs_record
    | some none ↦ err invalid_task_envelope
    | some (some task) ↦ ok task
  ]

module _ (python : Python) (expiration_seconds : ℕ) where
  unfoldable pub handle_incident_processing_requested :
      Answers → Task → Table → Result TaskError (Unit {0}) × Table
  unfolding incident_id_from_task accept_incident_processing_task
  handle_incident_processing_requested answers task table =
      elim (incident_id_from_task python task.payload) [
        | err e ↦ (err e, table)
        | ok incident_id ↦ done (
            accept_incident_processing_task answers.accepted_at answers.epoch expiration_seconds
              answers.put task incident_id table)
      ]

  unfoldable pub dispatch_task : Answers → Task → Table → Result TaskError (Unit {0}) × Table
  unfolding handle_incident_processing_requested
  dispatch_task answers task table =
      if str_eq task.task_type "incident.notification.requested"
      then (ok tt, table)
      else (if str_eq task.task_type "incident.processing.requested"
          then handle_incident_processing_requested answers task table
          else (err unsupported_task_type, table))

  -- `process_task_idempotently`
  abbrev pub process_task_idempotently :
      Idempotency → Answers → Task → Table → Result TaskError (Unit {0}) × Table
  unfolding dispatch_task
  process_task_idempotently calls answers task table = dispatch_task answers task table
  process_task_idempotently completed_before answers task table = (ok tt, table)
  process_task_idempotently raises answers task table = (err idempotency_error, table)

  unfoldable pub process_record :
      Option String → Answers → Table → Result TaskError (Unit {0}) × Table
  unfolding task_of dispatch_task
  process_record body answers table = elim (task_of python body) [
    | err e ↦ (err e, table)
    | ok task ↦ process_task_idempotently answers.idempotency answers task table
  ]

  -- `lambda_handler`: `batchItemFailures`, or `none` if a record without a message id ends the batch
  -- with an error, which leaves what the records before it wrote.
  unfoldable pub lambda_handler : List SqsRecord → Table → Option (List String) × Table
  unfolding process_record
  lambda_handler [] table = (some [], table)
  lambda_handler (malformed_record ∷ records) table = (none, table)
  lambda_handler (without_message_id ∷ records) table = (none, table)
  lambda_handler (message message_id body answers ∷ records) table =
      let (result, table') = process_record body answers table in
      let (failures, table'') = lambda_handler records table' in
      (note_failure message_id result failures, table'')
