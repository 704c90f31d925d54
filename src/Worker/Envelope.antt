-- ===== src/Worker/Envelope.antt =====
-- From the incident's creation to its claim: the publisher of the Incident Service,
-- incident-service/app/messaging/sqs_incident_task_publisher.py, whose envelopes the task worker
-- reads. `json.dumps`, `isoformat` and the client of SQS are parameters; times are aware.
use text.Mathlib.Text.{◌==◌ as str_eq}
use opsflow.Prelude.{
  ℕ, ◌≡◌, refl, Bool, false, String, Option, none, some, List, [], ◌∷◌, Result, ok, err, arith,
  if◌then◌else◌,
}
use opsflow.Outbox.Messages.{TaskMessage}
use opsflow.Incidents.Service.{Draw, processing_task, process_key, resolved_correlation_id}
use opsflow.Execution.{claim}
use opsflow.Worker.{Payload, no_incident_id, incident_id_text, Task, TaskItem, Table}
use opsflow.Worker.Store.{applied, get_item, new_item, validate_existing_record}
use opsflow.Worker.Handler.{calls, Answers, message, Python, process_record, lambda_handler}
use opsflow.Worker.Acceptance.{str_eq_refl}

-- How a payload of texts is read back.
unfoldable pub payload_of : List (String × String) → Payload
payload_of [] = no_incident_id
payload_of ((key, text) ∷ entries) =
    if str_eq key "incident_id" then incident_id_text text else payload_of entries

-- `_build_envelope`; its `kind` is the constant that the schema of tasks asks for.
unfoldable pub build_envelope : (uuid_text isoformat : ℕ → String) → TaskMessage → Task
unfolding payload_of
build_envelope uuid_text isoformat sent = record {
  task_id = uuid_text sent.task_id;
  task_type = sent.task_type;
  schema_version = sent.schema_version;
  producer = "incident-service";
  idempotency_key = sent.idempotency_key;
  correlation_id = sent.correlation_id;
  causation_id = sent.causation_id;
  payload = payload_of sent.payload;
  metadata = some sent.metadata;
  created_at = isoformat sent.created_at;
}

-- What `send_message` does: an error of boto3, or a response with its `MessageId`, if that is a text.
pub data SqsAnswer : Type 0 where
  client_error : SqsAnswer
  response : Option String → SqsAnswer

pub data PublicationError : Type 0 where
  publication_failed no_message_id : PublicationError

-- The queue's URL that the publisher is made with, or `none` for its `ValueError`.
unfoldable pub resolved_queue_url : (strip : String → String) → String → Option String
resolved_queue_url strip queue_url =
    let url = strip queue_url in if str_eq url "" then none else some url

-- The receipt of `publish`.
unfoldable pub receipt_of : SqsAnswer → Result PublicationError String
receipt_of client_error = err publication_failed
receipt_of (response none) = err no_message_id
receipt_of (response (some message_id)) =
    if str_eq message_id "" then err no_message_id else ok message_id

-- The `MessageAttributes`, each a text.
unfoldable pub message_attributes : TaskMessage → List (String × String)
message_attributes sent =
    ("task_type", sent.task_type)
    ∷ ("schema_version", sent.schema_version)
    ∷ ("correlation_id", sent.correlation_id)
    ∷ []

-- `publish`, where the client takes the queue's URL, the body and the attributes.
unfoldable pub publish :
    (uuid_text isoformat : ℕ → String)
    → (dumps : Task → String)
    → (send_message : String → String → List (String × String) → SqsAnswer) → String
    → TaskMessage
    → Result PublicationError String
unfolding build_envelope message_attributes receipt_of
publish uuid_text isoformat dumps send_message queue_url sent = receipt_of (
    send_message queue_url (dumps (build_envelope uuid_text isoformat sent))
      (message_attributes sent))

-- A task's record as the creation of its incident meant it, ready to be claimed.
abbrev pub IsArrived : Draw → Option String → Table → Type 0
IsArrived draw correlation_id table =
    (item : TaskItem) × (get_item (draw.uuid_text draw.task_id) table ≡ some item)
    × (item.incident_id ≡ draw.uuid_text draw.incident_id)
    × (item.idempotency_key ≡ process_key draw.uuid_text draw.incident_id)
    × (item.correlation_id ≡ resolved_correlation_id draw correlation_id)
    × ((now_epoch now lease_seconds token : ℕ)
        → (claimed : _) × ((claim now_epoch now lease_seconds token item.execution).0
            ≡ some claimed))

module _ (python : Python) (isoformat : ℕ → String) (expiration_seconds : ℕ) (draw : Draw)
    (correlation_id : Option String) (answers : Answers) (expired : Bool) (dumps : Task → String)
    (table : Table) where
  -- The envelope of the task that a new incident gets.
  abbrev envelope : Task
  envelope = build_envelope draw.uuid_text isoformat (processing_task draw correlation_id)

  -- What the parameters say of the body and of the incident's id.
  abbrev IsRead : Type 0
  IsRead =
      (python.parsed (dumps envelope) ≡ some (some envelope))
      × (python.uuid (draw.uuid_text draw.incident_id) ≡ some (draw.uuid_text draw.incident_id))
      × (str_eq (python.strip (draw.uuid_text draw.incident_id)) "" ≡ false)

  abbrev item : TaskItem
  item =
      new_item answers.accepted_at answers.epoch expiration_seconds envelope
        (draw.uuid_text draw.incident_id)

  process-fresh :
      IsRead
      → answers.idempotency ≡ calls
      → answers.put ≡ applied expired
      → get_item (draw.uuid_text draw.task_id) table ≡ none
      → process_record python expiration_seconds (some (dumps envelope)) answers table
        ≡ (ok tt, item ∷ table)
  unfolding process_record build_envelope
  process-fresh (parsed, uuid, strip) called put fresh = ground arith

  process-known :
      (later : Answers)
      → IsRead
      → later.idempotency ≡ calls
      → later.put ≡ applied false
      → process_record python expiration_seconds (some (dumps envelope)) later (item ∷ table)
        ≡ (ok tt, item ∷ table)
  unfolding process_record build_envelope get_item validate_existing_record
  process-known later (parsed, uuid, strip) called put =
      let s1 = str_eq_refl (draw.uuid_text draw.task_id) in
      let s2 = str_eq_refl (draw.uuid_text draw.incident_id) in
      let s3 = str_eq_refl (process_key draw.uuid_text draw.incident_id) in
      let s4 = str_eq_refl (resolved_correlation_id draw correlation_id) in ground arith

  item-IsArrived : IsArrived draw correlation_id (item ∷ table)
  unfolding build_envelope get_item claim
  item-IsArrived =
      let same = str_eq_refl (draw.uuid_text draw.task_id) in
      (item, ground arith, refl, refl, refl, λ now_epoch now lease_seconds token. (_, refl))

  -- A worker that has no record of the task of a new incident and that reads its envelope is
  -- given it twice in one batch, both times past the idempotency layer and with a table that
  -- answers. Neither delivery is reported as failed; the record is there under the task's id,
  -- with the incident's id, key and correlation id, and any claim of it succeeds.
  pub task_arrives :
      (later : Answers) (first_id second_id : String)
      → IsRead
      → answers.idempotency ≡ calls
      → answers.put ≡ applied expired
      → later.idempotency ≡ calls
      → later.put ≡ applied false
      → get_item (draw.uuid_text draw.task_id) table ≡ none
      → (table' : Table) × (lambda_handler python expiration_seconds
            (message first_id (some (dumps envelope)) answers
              ∷ message second_id (some (dumps envelope)) later
              ∷ [])
            table
          ≡ (some [], table'))
        × IsArrived draw correlation_id table'
  unfolding lambda_handler
  task_arrives later first_id second_id read called put called_later put_later fresh =
      let once = process-fresh read called put fresh in
      let again = process-known later read called_later put_later in
      (item ∷ table, ground arith, item-IsArrived)
