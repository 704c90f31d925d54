-- ===== src/Outbox/Messages.antt =====
-- The messages of the two outboxes, incident-service/app/domain/incident_task.py and
-- incident_task_completion.py, and how the repositories add them. A UUID is a number that is only
-- compared; the dictionaries of texts are lists of their entries.
use text.Mathlib.Text.{◌==◌ as str_eq}
use opsflow.Prelude.{
  ℕ, Bool, ◌&&◌, String, Option, none, some, List, [], ◌∷◌, ◌++◌, Result, ◌==◌, if◌then◌else◌,
}
use opsflow.Outbox.{
  OutboxRow, RelayResult, new_row, lock_next_publishable, mark_published, mark_publish_failed,
  relay_once,
}
use opsflow.Incidents.{IncidentStatus}

pub record TaskMessage : Type 0 where
  pub task_id : ℕ
  pub incident_id : ℕ
  pub schema_version : String
  pub task_type : String
  pub idempotency_key : String
  pub correlation_id : String
  pub causation_id : Option String
  pub payload : List (String × String)
  pub metadata : List (String × String)
  pub created_at : ℕ

abbrev pub task_schema_version : String
task_schema_version = "1.0"

abbrev pub incident_processing_task_type : String
incident_processing_task_type = "incident.processing.requested"

abbrev pub TaskOutbox : Type 0
TaskOutbox = List (OutboxRow TaskMessage)

-- `create` of the task outbox
unfoldable pub create_task : ℕ → TaskMessage → TaskOutbox → TaskOutbox
unfolding new_row
create_task id message outbox = outbox ++ new_row id message message.created_at ∷ []

pub record CompletionMessage : Type 0 where
  pub event_id : ℕ
  pub incident_id : ℕ
  pub task_id : ℕ
  pub correlation_id : String
  pub schema_version : String
  pub event_type : String
  pub status : IncidentStatus
  pub acknowledged_at : Option ℕ
  pub occurred_at : ℕ

abbrev pub event_schema_version : String
event_schema_version = "1.0"

abbrev pub incident_task_completed_event_type : String
incident_task_completed_event_type = "incident.task.completed"

abbrev pub CompletionOutbox : Type 0
CompletionOutbox = List (OutboxRow CompletionMessage)

unfoldable pub of_task : ℕ → CompletionOutbox → Option (OutboxRow CompletionMessage)
of_task task_id [] = none
of_task task_id (row ∷ rows) =
    if row.message.task_id == task_id then some row else of_task task_id rows

-- The message that is stored is returned; `collision` is the collision error.
pub data Created : Type 0 where
  stored : CompletionMessage → CompletionOutbox → Created
  collision : Created

-- `create` of the completion outbox: `ON CONFLICT (task_id) DO NOTHING`, then the check of the row
-- that is there.
unfoldable pub create_completion : ℕ → CompletionMessage → CompletionOutbox → Created
unfolding of_task new_row
create_completion id message outbox = elim (of_task message.task_id outbox) [
  | none ↦ stored message (outbox ++ new_row id message message.occurred_at ∷ [])
  | some existing ↦
      if (existing.message.incident_id == message.incident_id)
        && str_eq existing.message.correlation_id message.correlation_id
      then stored existing.message outbox
      else collision
]

-- The completion outbox is relayed by its own service and repository, with the same statements.
unfoldable pub lock_next_completion :
    (now retry : ℕ) → (ℕ → Bool) → CompletionOutbox → Option (OutboxRow CompletionMessage)
lock_next_completion now retry locked outbox = lock_next_publishable now retry locked outbox

unfoldable pub mark_completion_published : ℕ → ℕ → CompletionOutbox → Option CompletionOutbox
mark_completion_published id at outbox = mark_published id at outbox

unfoldable pub mark_completion_failed : ℕ → ℕ → String → CompletionOutbox → Option CompletionOutbox
mark_completion_failed id at error outbox = mark_publish_failed id at error outbox

unfoldable pub relay_completion_once :
    (now retry at : ℕ)
    → (ℕ → Bool)
    → (CompletionMessage → Result String String)
    → CompletionOutbox
    → RelayResult CompletionMessage × CompletionOutbox
relay_completion_once now retry at locked publish outbox =
    relay_once now retry at locked publish outbox
