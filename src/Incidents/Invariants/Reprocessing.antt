-- ===== src/Incidents/Invariants/Reprocessing.antt =====
-- A task that is processed again.
use text.Mathlib.TextEquality.{eq_iff}
use opsflow.Prelude.{
  ℕ, ◌≡◌, refl, sym, ◌∙◌, ap, ==_refl, Bool, true, false, none, some, [], ◌∷◌, ◌++◌, String, arith,
  Bool-cases, Option-cases, inl, inr, if◌then◌else◌,
}
use opsflow.Incidents.{Incident, IncidentTable, get_by_id, write}
use opsflow.Incidents.Rows.{id-get_by_id, get_by_id-write_self}
use opsflow.Incidents.Processing.{
  IncidentProcessingResult, process, is_changed, Processed, CompletionDraw, returned, retryable,
  completion_message, process_incident_with_postgres,
}
use opsflow.Incidents.Invariants.Acknowledged.{IsAcknowledged, process-IsAcknowledged}
use opsflow.Incidents.Invariants.{processed_incident}
use opsflow.Outbox.{OutboxRow, new_row}
use opsflow.Outbox.Messages.{
  CompletionMessage, CompletionOutbox, Created, stored, collision, create_completion, of_task,
}

-- Nothing is left to change in an incident that is processed.
unchanged :
    (a a' n : ℕ) (existing : Incident)
    → is_changed a'
        (processed_incident a n existing).status
        (processed_incident a n existing).acknowledged_at
      ≡ false
unchanged a a' n existing = ground arith

unchanged_as_is :
    (a a' : ℕ) (existing : Incident)
    → is_changed a existing.status existing.acknowledged_at ≡ false
    → is_changed a' existing.status existing.acknowledged_at ≡ false
unchanged_as_is a a' existing h = ground arith

process_as_is :
    (a n i : ℕ) (table : IncidentTable) (existing : Incident)
    → get_by_id i table ≡ some existing
    → is_changed a existing.status existing.acknowledged_at ≡ false
    → process a n i table
      ≡ some (
        record {
          incident_id = existing.id;
          status = existing.status;
          changed = false;
          acknowledged_at = existing.acknowledged_at;
        },
        table,
      )
unfolding process
process_as_is a n i table existing found same = ground arith

process-process :
    (a n a' n' i : ℕ) (table table' : IncidentTable) (r : IncidentProcessingResult)
    → process a n i table ≡ some (r, table')
    → (process a' n' i table' ≡ some (record r { changed = false }, table')) × (r.incident_id ≡ i)
unfolding process
process-process a n a' n' i table table' r h = elim (Option-cases (get_by_id i table)) [
  | inl missing ↦ absurd (ground arith)
  | inr (existing, found) ↦
      let own = id-get_by_id i table existing found in
      elim (Bool-cases (is_changed a existing.status existing.acknowledged_at)) [
        | inl changes ↦
            let updated = processed_incident a n existing in
            let at_own = ap (λ j. get_by_id j table) own ∙ found in
            let next : table' ≡ write updated table = ground arith in
            let written : get_by_id i table' ≡ some updated =
              ap (get_by_id i) next
              ∙ ap (λ j. get_by_id j (write updated table)) (sym own)
              ∙ get_by_id-write_self updated existing table at_own in
            let again = process_as_is a' n' i table' updated written (unchanged a a' n existing) in
            (ground arith, ground arith)
        | inr same ↦
            let next : table ≡ table' = ground arith in
            let again =
              process_as_is a' n' i table existing found (unchanged_as_is a a' existing same) in
            (ground arith, ground arith)
      ]
]

of_task-append :
    (t : ℕ) (row : OutboxRow CompletionMessage) (outbox : CompletionOutbox)
    → of_task t outbox ≡ none
    → row.message.task_id ≡ t
    → of_task t (outbox ++ row ∷ []) ≡ some row
unfolding of_task
of_task-append t row [] h own = ground (arith, ==_refl t)
of_task-append t row (r ∷ rows) h own = ground (arith, of_task-append t row rows)

-- The event of a task that is stored once is there for every later event of the task.
create_completion-again :
    (id id' : ℕ) (m m' kept : CompletionMessage) (outbox outbox' : CompletionOutbox)
    → create_completion id m outbox ≡ stored kept outbox'
    → m'.task_id ≡ m.task_id
    → m'.incident_id ≡ m.incident_id
    → m'.correlation_id ≡ m.correlation_id
    → create_completion id' m' outbox' ≡ stored kept outbox'
unfolding create_completion
create_completion-again id id' m m' kept outbox outbox' h t i c =
    elim (Option-cases (of_task m.task_id outbox)) [
      | inl fresh ↦
          let row = new_row id m m.occurred_at in
          let found = of_task-append m.task_id row outbox fresh refl in
          let same_id = ==_refl m.incident_id in
          let same_text = (eq_iff m.correlation_id m.correlation_id).1 refl in ground arith
      | inr (row, found) ↦ ground arith
    ]

-- A processing that returns its result has committed what `process` wrote.
returned-process :
    (first : CompletionDraw) (t i : ℕ) (c : String) (db db' : Processed)
    (r : IncidentProcessingResult)
    → process_incident_with_postgres true first (some t) i c db ≡ (returned r, db')
    → process first.acknowledging first.now i db.incidents ≡ some (r, db'.incidents)
unfolding process_incident_with_postgres
returned-process first t i c db db' r h =
    elim (Option-cases (process first.acknowledging first.now i db.incidents)) [
      | inl missing ↦ absurd (ground arith)
      | inr ((result, table), run) ↦ ground arith
    ]

again_same :
    (commits : Bool) (first again : CompletionDraw) (t i : ℕ) (c : String) (db db' : Processed)
    (r : IncidentProcessingResult)
    → process_incident_with_postgres true first (some t) i c db ≡ (returned r, db')
    → process_incident_with_postgres commits again (some t) i c db'
      ≡ (if commits then returned (record r { changed = false }) else retryable, db')
unfolding process_incident_with_postgres
again_same commits first again t i c db db' r h =
    elim (Option-cases (process first.acknowledging first.now i db.incidents)) [
      | inl missing ↦ absurd (ground arith)
      | inr ((result, table), run) ↦
          by_created result table run
            (create_completion first.outbox_id (completion_message first t c result) db.completions)
            refl
    ]
  where
    by_created :
        (result : IncidentProcessingResult) (table : IncidentTable)
        → process first.acknowledging first.now i db.incidents ≡ some (result, table)
        → (created : Created)
        → create_completion first.outbox_id (completion_message first t c result) db.completions
          ≡ created
        → process_incident_with_postgres commits again (some t) i c db'
          ≡ (if commits then returned (record r { changed = false }) else retryable, db')
    by_created result table run collision e = absurd (ground arith)
    by_created result table run (stored kept outbox) e =
        let next =
          process-process first.acknowledging first.now again.acknowledging again.now i db.incidents
            table result run in
        let result_same : r ≡ result = ground arith in
        let incidents_same : db'.incidents ≡ table = ground arith in
        let completions_same : db'.completions ≡ outbox = ground arith in
        let stored_again =
          create_completion-again first.outbox_id again.outbox_id
            (completion_message first t c result)
            (completion_message again t c (record result { changed = false })) kept db.completions
            outbox e refl refl refl in
        ground (arith, next.0)

-- A task that was processed and committed can be processed again, at any later time and with new ids:
-- the tables stay as they are, and a run that commits returns the same result, unchanged. The first run
-- has left an open incident under investigation, and one that was open or under investigation
-- acknowledged, at the earlier time if it had one; its result reports the status and that time.
pub reprocess_lem :
    (commits : Bool) (first again : CompletionDraw) (t i : ℕ) (c : String) (db db' : Processed)
    (r : IncidentProcessingResult)
    → process_incident_with_postgres true first (some t) i c db ≡ (returned r, db')
    → (process_incident_with_postgres commits again (some t) i c db'
        ≡ (if commits then returned (record r { changed = false }) else retryable, db'))
      × IsAcknowledged first.acknowledging i db.incidents r db'.incidents
reprocess_lem commits first again t i c db db' r h = (
  again_same commits first again t i c db db' r h,
  process-IsAcknowledged first.acknowledging first.now i db.incidents db'.incidents r
      (returned-process first t i c db db' r h),
)
