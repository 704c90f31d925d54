-- ===== src/Outbox.antt =====
-- The transactional outboxes of the Incident Service, in incident-service/app/repositories:
-- sqlalchemy_incident_task_outbox_repository.py and
-- sqlalchemy_incident_task_completion_outbox_repository.py keep their rows alike, and
-- incident-service/app/services/incident_outbox_relay_service.py and
-- incident_task_completion_outbox_relay_service.py relay them alike. `M` is the message of a row.
-- A datetime is a number of microseconds; `retry` is `retry_seconds` in microseconds.
pub mod Rows
pub mod Worker
pub mod Delivery
pub mod Promises
pub mod Drain
pub mod Messages
use Prim.Native.String
use opsflow.Prelude.{
  ℕ, zero, suc, ◌+◌, Bool, true, false, not, ◌&&◌, ◌||◌, String, Option, none, some, List, [], ◌∷◌,
  ◌++◌, Result, ok, err, leb, ◌==◌, if◌then◌else◌,
}
use opsflow.Execution.{first_characters}

pub data PublicationStatus : Type 0 where
  pending published : PublicationStatus

abbrev pub is_pending : PublicationStatus → Bool
is_pending pending = true
is_pending published = false

pub record OutboxRow (M : Type 0) : Type 0 where
  pub id : ℕ
  pub message : M
  pub publication_status : PublicationStatus
  pub publish_attempts : ℕ
  pub created_at : ℕ
  pub updated_at : ℕ
  pub published_at : Option ℕ
  pub last_error : Option String

-- `OutboxRelayResult` and `CompletionOutboxRelayResult`, with the message and the attempt.
pub data RelayResult (M : Type 0) : Type 0 where
  nothing_pending row_not_found : RelayResult M
  publication_failed was_published : M → ℕ → String → RelayResult M

module _ {M : Type 0} where
  -- The row that `create` adds.
  unfoldable pub new_row : ℕ → M → ℕ → OutboxRow M
  new_row id message created_at = record {
    id = id;
    message = message;
    publication_status = pending;
    publish_attempts = 0;
    created_at = created_at;
    updated_at = created_at;
    published_at = none;
    last_error = none;
  }

  -- `session.get`
  unfoldable pub get : ℕ → List (OutboxRow M) → Option (OutboxRow M)
  get id [] = none
  get id (row ∷ rows) = if row.id == id then some row else get id rows

  unfoldable pub modify : ℕ → (OutboxRow M → OutboxRow M) → List (OutboxRow M) → List (OutboxRow M)
  modify id change [] = []
  modify id change (row ∷ rows) =
      let rest = modify id change rows in if row.id == id then change row ∷ rows else row ∷ rest

  -- The `WHERE` of `lock_next_publishable` at the time `now`, of the rows that no other relay has
  -- locked: `updated_at <= now - retry`.
  unfoldable pub is_publishable : ℕ → ℕ → (ℕ → Bool) → OutboxRow M → Bool
  is_publishable now retry locked row =
      (is_pending row.publication_status
        && (row.publish_attempts == 0 || leb (row.updated_at + retry) now))
      && not (locked row.id)

  -- The earlier of a row and the best of the rows after it.
  abbrev pub earlier : OutboxRow M → Option (OutboxRow M) → OutboxRow M
  earlier row none = row
  earlier row (some best) = if leb row.created_at best.created_at then row else best

  -- `lock_next_publishable`: `ORDER BY created_at LIMIT 1`
  unfoldable pub lock_next_publishable :
      ℕ → ℕ → (ℕ → Bool) → List (OutboxRow M) → Option (OutboxRow M)
  unfolding is_publishable
  lock_next_publishable now retry locked [] = none
  lock_next_publishable now retry locked (row ∷ rows) =
      let best = lock_next_publishable now retry locked rows in
      if is_publishable now retry locked row then some (earlier row best) else best

  abbrev pub marked_published : ℕ → OutboxRow M → OutboxRow M
  marked_published at row = record row {
    publication_status = published;
    publish_attempts = row.publish_attempts + 1;
    published_at = some at;
    updated_at = at;
    last_error = none;
  }

  abbrev pub marked_failed : ℕ → String → OutboxRow M → OutboxRow M
  marked_failed at error row = record row {
    publication_status = pending;
    publish_attempts = row.publish_attempts + 1;
    updated_at = at;
    last_error = some (first_characters 2000 error);
  }

  -- `mark_published` and `mark_publish_failed`; `none` is the error of a row that is not there.
  unfoldable pub mark_published : ℕ → ℕ → List (OutboxRow M) → Option (List (OutboxRow M))
  mark_published id at table = elim (get id table) [
    | none ↦ none
    | some _ ↦ some (modify id (marked_published at) table)
  ]

  unfoldable pub mark_publish_failed :
      ℕ → ℕ → String → List (OutboxRow M) → Option (List (OutboxRow M))
  mark_publish_failed id at error table = elim (get id table) [
    | none ↦ none
    | some _ ↦ some (modify id (marked_failed at error) table)
  ]

  -- `relay_once`, from the row that is locked on: `publish` is the publisher, which returns a message
  -- id or raises its publication error, and `at` is the time after it.
  unfoldable pub after_publish :
      ℕ
      → OutboxRow M
      → Result String String
      → List (OutboxRow M)
      → RelayResult M × List (OutboxRow M)
  unfolding mark_published mark_publish_failed
  after_publish at row (ok message_id) table = elim (mark_published row.id at table) [
    | none ↦ (row_not_found, table)
    | some table' ↦ (was_published row.message (row.publish_attempts + 1) message_id, table')
  ]
  after_publish at row (err error) table = elim (mark_publish_failed row.id at error table) [
    | none ↦ (row_not_found, table)
    | some table' ↦ (publication_failed row.message (row.publish_attempts + 1) error, table')
  ]

  unfoldable pub relay_once :
      (now retry at : ℕ)
      → (ℕ → Bool)
      → (M → Result String String)
      → List (OutboxRow M)
      → RelayResult M × List (OutboxRow M)
  unfolding lock_next_publishable after_publish
  relay_once now retry at locked publish table =
      elim (lock_next_publishable now retry locked table) [
        | none ↦ (nothing_pending, table)
        | some row ↦ after_publish at row (publish row.message) table
      ]
