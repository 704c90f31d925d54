-- ===== src/Worker/Batch.antt =====
-- A batch of records: what was in the table stays, and what is not reported as failed is recorded.
use text.Mathlib.Text.{◌==◌ as str_eq}
use text.Mathlib.TextEquality.{eq_iff}
use opsflow.Prelude.{
  ℕ, ◌≡◌, refl, subst, Bool, false, ◌||◌, String, Option, none, some, List, [], ◌∷◌, ◌++◌, Result,
  ok, err, arith,
}
use opsflow.Worker.{Task, TaskItem, Table, TaskError}
use opsflow.Worker.Store.{get_item, accept_incident_processing_task}
use opsflow.Worker.Acceptance.{IsRecorded, accept-IsRecorded, get_item-accept}
use opsflow.Worker.Handler.{
  Idempotency, calls, completed_before, raises, Answers, SqsRecord, malformed_record,
  without_message_id, message, Python, incident_id_from_task, handle_incident_processing_requested,
  dispatch_task, task_of, process_record, note_failure, lambda_handler,
}

abbrev pub contains_text : String → List String → Bool
contains_text text [] = false
contains_text text (other ∷ others) = str_eq other text || contains_text text others

-- What is not among the failures of a batch is not among those of its rest.
rest_of_failures :
    (other_id message_id : String) (result : Result TaskError (Unit {0}))
    (rest : Option (List String)) (failures : List String)
    → note_failure other_id result rest ≡ some failures
    → contains_text message_id failures ≡ false
    → (rest_failures : List String) × (rest ≡ some rest_failures)
      × (contains_text message_id rest_failures ≡ false)
rest_of_failures other_id message_id (ok _) none failures h out = absurd (ground arith)
rest_of_failures other_id message_id (ok _) (some fs) failures h out = (fs, refl, ground arith)
rest_of_failures other_id message_id (err _) none failures h out = absurd (ground arith)
rest_of_failures other_id message_id (err _) (some fs) failures h out = (fs, refl, ground arith)

module _ (python : Python) (expiration_seconds : ℕ) where
  -- The table holds on to a record.
  abbrev Holds : String → TaskItem → Table → Type 0
  Holds i item table = get_item i table ≡ some item

  Holds-handle :
      (answers : Answers) (task : Task) (i : String) (item : TaskItem) (table : Table)
      → Holds i item table
      → Holds i item
          (handle_incident_processing_requested python expiration_seconds answers task table).1
  unfolding handle_incident_processing_requested
  Holds-handle answers task i item table h =
      by_payload (incident_id_from_task python task.payload) refl
    where
      by_payload :
          (r : Result TaskError String)
          → incident_id_from_task python task.payload ≡ r
          → Holds i item
              (handle_incident_processing_requested python expiration_seconds answers task table).1
      by_payload (err e) p = ground arith
      by_payload (ok incident_id) p = ground (
        arith,
        get_item-accept answers.accepted_at answers.epoch expiration_seconds answers.put task
            incident_id i item table h,
      )

  Holds-process_record :
      (body : Option String) (answers : Answers) (i : String) (item : TaskItem) (table : Table)
      → Holds i item table
      → Holds i item (process_record python expiration_seconds body answers table).1
  unfolding process_record dispatch_task
  Holds-process_record body answers i item table h =
      by_task (task_of python body) answers.idempotency refl refl
    where
      by_task :
          (r : Result TaskError Task) (layer : Idempotency)
          → task_of python body ≡ r
          → answers.idempotency ≡ layer
          → Holds i item (process_record python expiration_seconds body answers table).1
      by_task (err e) layer p q = ground arith
      by_task (ok task) calls p q = ground (arith, Holds-handle answers task i item table h)
      by_task (ok task) completed_before p q = ground arith
      by_task (ok task) raises p q = ground arith

  -- No batch changes or removes a record of the table, also one that ends with an error.
  pub lambda_handler-keeps :
      (records : List SqsRecord) (i : String) (item : TaskItem) (table : Table)
      → get_item i table ≡ some item
      → get_item i (lambda_handler python expiration_seconds records table).1 ≡ some item
  unfolding lambda_handler
  lambda_handler-keeps [] i item table h = h
  lambda_handler-keeps (malformed_record ∷ records) i item table h = h
  lambda_handler-keeps (without_message_id ∷ records) i item table h = h
  lambda_handler-keeps (message message_id body answers ∷ records) i item table h =
      lambda_handler-keeps records i item
        (process_record python expiration_seconds body answers table).1
        (Holds-process_record body answers i item table h)

  -- The incident id of the task is valid, and the task is recorded with it.
  abbrev pub IsAccepted : Task → Table → Type 0
  IsAccepted task table =
      (incident_id : String) × (incident_id_from_task python task.payload ≡ ok incident_id)
      × IsRecorded task incident_id table

  handle-IsAccepted :
      (answers : Answers) (task : Task) (table table' : Table)
      → handle_incident_processing_requested python expiration_seconds answers task table
        ≡ (ok tt, table')
      → IsAccepted task table'
  unfolding handle_incident_processing_requested
  handle-IsAccepted answers task table table' h =
      by_payload (incident_id_from_task python task.payload) refl
    where
      by_payload :
          (r : Result TaskError String)
          → incident_id_from_task python task.payload ≡ r
          → IsAccepted task table'
      by_payload (err e) p = absurd (ground arith)
      by_payload (ok incident_id) p =
          by_answer incident_id p
            (accept_incident_processing_task answers.accepted_at answers.epoch expiration_seconds
              answers.put task incident_id table).0
            (accept_incident_processing_task answers.accepted_at answers.epoch expiration_seconds
              answers.put task incident_id table).1
            refl
        where
          by_answer :
              (incident_id : String)
              → incident_id_from_task python task.payload ≡ ok incident_id
              → (r : Result TaskError Bool) (t : Table)
              → accept_incident_processing_task answers.accepted_at answers.epoch expiration_seconds
                  answers.put task incident_id table
                ≡ (r, t)
              → IsAccepted task table'
          by_answer incident_id p (err e) t q = absurd (ground arith)
          by_answer incident_id p (ok b) t q =
              let same : t ≡ table' = ground arith in
              (
                incident_id,
                p,
                accept-IsRecorded answers.accepted_at answers.epoch expiration_seconds answers.put
                    task incident_id table table' b (ground arith),
              )

  process_record-IsAccepted :
      (body : String) (answers : Answers) (task : Task) (table table' : Table)
      → python.parsed body ≡ some (some task)
      → task.task_type ≡ "incident.processing.requested"
      → answers.idempotency ≡ calls
      → process_record python expiration_seconds (some body) answers table ≡ (ok tt, table')
      → IsAccepted task table'
  unfolding process_record task_of dispatch_task
  process_record-IsAccepted body answers task table table' p t c h =
      let type_is = (eq_iff task.task_type "incident.processing.requested").1 t in
      let type_is_not : str_eq task.task_type "incident.notification.requested" ≡ false =
        rw t refl in
      handle-IsAccepted answers task table table' (ground arith)

  IsAccepted-keeps :
      (task : Task) (records : List SqsRecord) (table : Table)
      → IsAccepted task table
      → IsAccepted task (lambda_handler python expiration_seconds records table).1
  IsAccepted-keeps task records table (incident_id, p, (item, found, valid)) =
      (incident_id, p, (item, lambda_handler-keeps records task.task_id item table found, valid))

  -- A record of a batch that the handler does not report as failed, and whose task asks for processing
  -- and reaches the dispatcher, has a valid incident id, and its task is in the table with it.
  pub lambda_handler-IsAccepted :
      (before after : List SqsRecord) (message_id body : String) (answers : Answers) (task : Task)
      (failures : List String) (table table' : Table)
      → python.parsed body ≡ some (some task)
      → task.task_type ≡ "incident.processing.requested"
      → answers.idempotency ≡ calls
      → lambda_handler python expiration_seconds
          (before ++ message message_id (some body) answers ∷ after)
          table
        ≡ (some failures, table')
      → contains_text message_id failures ≡ false
      → IsAccepted task table'
  unfolding lambda_handler
  lambda_handler-IsAccepted [] after message_id body answers task failures table table' p t c h
        out =
      by_result (process_record python expiration_seconds (some body) answers table).0
        (process_record python expiration_seconds (some body) answers table).1 refl
    where
      by_result :
          (r : Result TaskError (Unit {0})) (next : Table)
          → process_record python expiration_seconds (some body) answers table ≡ (r, next)
          → IsAccepted task table'
      by_result (err e) next q =
          by_rest (lambda_handler python expiration_seconds after next).0 refl
        where
          by_rest :
              (rest : Option (List String))
              → (lambda_handler python expiration_seconds after next).0 ≡ rest
              → IsAccepted task table'
          by_rest none w = absurd (ground arith)
          by_rest (some fs) w =
              let self = (eq_iff message_id message_id).1 refl in
              let reported : failures ≡ message_id ∷ fs = ground arith in absurd (ground arith)
      by_result (ok u) next q =
          let done_here = process_record-IsAccepted body answers task table next p t c q in
          let later = IsAccepted-keeps task after next done_here in
          let same : (lambda_handler python expiration_seconds after next).1 ≡ table' =
            ground arith in
          subst (IsAccepted task) same later
  lambda_handler-IsAccepted (malformed_record ∷ before) after message_id body answers task failures
        table table' p t c h out =
      absurd (ground arith)
  lambda_handler-IsAccepted (without_message_id ∷ before) after message_id body answers task
        failures table table' p t c h out =
      absurd (ground arith)
  lambda_handler-IsAccepted (message other_id other_body other ∷ before) after message_id body
        answers task failures table table' p t c h out =
      let run = process_record python expiration_seconds other_body other table in
      let rest =
        lambda_handler python expiration_seconds
          (before ++ message message_id (some body) answers ∷ after) run.1 in
      let (fs, still, absent) =
        rest_of_failures other_id message_id run.0 rest.0 failures (ground arith) out in
      lambda_handler-IsAccepted before after message_id body answers task fs run.1 table' p t c
        (ground arith) absent
