-- ===== src/Incidents/Invariants/Tasked.antt =====
-- Incidents and their tasks: requests and relays in any order.
use opsflow.Prelude.{
  ℕ, ◌≡◌, refl, sym, ◌∙◌, ap, subst, ==_refl, Bool, true, false, ◌||◌, Option, none, some, List, [],
  ◌∷◌, ◌++◌, ◌==◌, Result, ok, err, arith, String,
}
use opsflow.Incidents
use opsflow.Incidents.{Incident, IncidentTable}
use opsflow.Incidents.Rows.{AllRows, AllRows-map, create-AllRows}
use opsflow.Incidents.Service.{
  Database, IncidentError, Catalog, Draw, IncidentCreate, IncidentUpdate, updated_incident,
  create_incident, update_incident, delete_incident, new_incident, processing_task,
}
use opsflow.Incidents.Processing.{IncidentProcessingResult, process}
use opsflow.Incidents.Requests.{
  Request, create_request, update_request, delete_request, process_request, committed,
  committed_delete, committed_process, handle,
}
use opsflow.Incidents.Invariants.{Kept, handle-AllRows}
use opsflow.Outbox.{OutboxRow, new_row}
use opsflow.Outbox.Messages.{TaskMessage, TaskOutbox, create_task}
use opsflow.Outbox.Worker.{Pass, World, relay_one}
use opsflow.Outbox.Promises.{contents, contents-relay_one}

abbrev pub has_task : ℕ → TaskOutbox → Bool
has_task incident_id [] = false
has_task incident_id (row ∷ rows) =
    row.message.incident_id == incident_id || has_task incident_id rows

-- A request, or a transaction of a relay.
pub data Step : Type 0 where
  request_step : Request → Step
  relay_step : Pass → Step

pub record System : Type 0 where
  pub database : Database
  pub sent : List ℕ

unfoldable pub step : (retry : ℕ) → Catalog → Step → System → System
unfolding handle relay_one
step retry service_exists (request_step request) s = record s {
  database = handle service_exists request s.database;
}
step retry service_exists (relay_step pass) s =
    let w = relay_one retry pass (record { table = s.database.tasks; sent = s.sent }) in
    record { database = record s.database { tasks = w.table }; sent = w.sent }

unfoldable pub steps : (retry : ℕ) → Catalog → List Step → System → System
steps retry service_exists [] s = s
steps retry service_exists (now ∷ later) s =
    steps retry service_exists later (step retry service_exists now s)

abbrev pub IsTasked : TaskOutbox → Incident → Type 0
IsTasked tasks row = has_task row.id tasks ≡ true

-- What is asked of a list of messages alone.
has_task_in : ℕ → List (ℕ × TaskMessage) → Bool
has_task_in incident_id [] = false
has_task_in incident_id ((_, message) ∷ rows) =
    message.incident_id == incident_id || has_task_in incident_id rows

has_task-contents :
    (incident_id : ℕ) (tasks : TaskOutbox)
    → has_task incident_id tasks ≡ has_task_in incident_id (contents tasks)
unfolding has_task_in
has_task-contents incident_id [] = refl
has_task-contents incident_id (row ∷ rows) =
    ap (λ b. row.message.incident_id == incident_id || b) (has_task-contents incident_id rows)

has_task-append :
    (incident_id : ℕ) (tasks : TaskOutbox) (row : OutboxRow TaskMessage)
    → has_task incident_id (tasks ++ row ∷ [])
      ≡ has_task incident_id tasks || row.message.incident_id == incident_id
has_task-append incident_id [] row = ground arith
has_task-append incident_id (r ∷ rows) row = ground (arith, has_task-append incident_id rows row)

module _ (retry : ℕ) (pass : Pass) (w : World TaskMessage) where
  has_task-relay_one :
      (incident_id : ℕ)
      → has_task incident_id w.table ≡ true
      → has_task incident_id (relay_one retry pass w).table ≡ true
  has_task-relay_one incident_id h =
      has_task-contents incident_id (relay_one retry pass w).table
      ∙ ap (has_task_in incident_id) (contents-relay_one retry pass w)
      ∙ sym (has_task-contents incident_id w.table)
      ∙ h

module _ (service_exists : Catalog) (db : Database)
    (all : AllRows (IsTasked db.tasks) db.incidents) where
  -- Rows of which only the id is kept.
  same_tasks :
      (request : Request)
      → (handle service_exists request db).tasks ≡ db.tasks
      → Kept (IsTasked db.tasks) request
      → AllRows
          (IsTasked (handle service_exists request db).tasks)
          (handle service_exists request db).incidents
  same_tasks request same kept =
      subst (λ tasks. AllRows (IsTasked tasks) (handle service_exists request db).incidents)
        (sym same) (handle-AllRows (IsTasked db.tasks) service_exists db all request kept)

  create-IsTasked :
      (draw : Draw) (payload : IncidentCreate) (correlation_id : Option String)
      (r : Result IncidentError (Incident × Database))
      → create_incident service_exists draw payload correlation_id db ≡ r
      → AllRows (IsTasked (committed db r).tasks) (committed db r).incidents
  unfolding create_incident create_task
  create-IsTasked draw payload correlation_id (err _) e = all
  create-IsTasked draw payload correlation_id (ok (incident, db')) e =
      let message = processing_task draw correlation_id in
      let row = new_row draw.outbox_id message draw.now in
      let tasks : db'.tasks ≡ db.tasks ++ row ∷ [] = ground arith in
      let rows : db'.incidents ≡ Incidents.create (new_incident draw payload) db.incidents =
        ground arith in
      let self = ==_refl draw.incident_id in
      let grown : AllRows (IsTasked (db.tasks ++ row ∷ [])) db.incidents =
        AllRows-map (IsTasked db.tasks) (IsTasked (db.tasks ++ row ∷ [])) db.incidents
          (λ r h. later r row h) all in
      rw (tasks, rows)
        (create-AllRows (IsTasked (db.tasks ++ row ∷ [])) (new_incident draw payload) db.incidents
          (has_task-append draw.incident_id db.tasks row
            ∙ right (has_task draw.incident_id db.tasks) (draw.incident_id == draw.incident_id)
                self)
          grown)
    where
      right : (a b : Bool) → b ≡ true → (a || b) ≡ true
      right a b h = ground arith

      later :
          (r : Incident) (row : OutboxRow TaskMessage)
          → has_task r.id db.tasks ≡ true
          → has_task r.id (db.tasks ++ row ∷ []) ≡ true
      later r row h = ground (arith, has_task-append r.id db.tasks row)

  update_same :
      (r : Result IncidentError (Incident × Database)) (resolving now incident_id : ℕ)
      (payload : IncidentUpdate)
      → update_incident service_exists resolving now incident_id payload db ≡ r
      → (committed db r).tasks ≡ db.tasks
  unfolding update_incident
  update_same (err _) resolving now incident_id payload e = refl
  update_same (ok (incident, db')) resolving now incident_id payload e = ground arith

  delete_same :
      (r : Result IncidentError Database) (incident_id : ℕ)
      → delete_incident incident_id db ≡ r
      → (committed_delete db r).tasks ≡ db.tasks
  unfolding delete_incident
  delete_same (err _) incident_id e = refl
  delete_same (ok db') incident_id e = ground arith

  process_same :
      (r : Option (IncidentProcessingResult × IncidentTable))
      → (committed_process db r).tasks ≡ db.tasks
  process_same none = refl
  process_same (some _) = refl

  handle-IsTasked :
      (request : Request)
      → AllRows
          (IsTasked (handle service_exists request db).tasks)
          (handle service_exists request db).incidents
  unfolding handle updated_incident
  handle-IsTasked (create_request draw payload correlation_id) =
      create-IsTasked draw payload correlation_id
        (create_incident service_exists draw payload correlation_id db) refl
  handle-IsTasked (update_request resolving now incident_id payload) =
      same_tasks (update_request resolving now incident_id payload)
        (update_same (update_incident service_exists resolving now incident_id payload db) resolving
          now incident_id payload refl)
        (λ existing h. h)
  handle-IsTasked (delete_request incident_id) =
      same_tasks (delete_request incident_id)
        (delete_same (delete_incident incident_id db) incident_id refl) tt
  handle-IsTasked (process_request acknowledging now incident_id) =
      same_tasks (process_request acknowledging now incident_id)
        (process_same (process acknowledging now incident_id db.incidents)) (λ existing h. h)

step-IsTasked :
    (retry : ℕ) (service_exists : Catalog) (now : Step) (s : System)
    → AllRows (IsTasked s.database.tasks) s.database.incidents
    → AllRows
        (IsTasked (step retry service_exists now s).database.tasks)
        (step retry service_exists now s).database.incidents
unfolding step
step-IsTasked retry service_exists (request_step request) s all =
    handle-IsTasked service_exists s.database all request
step-IsTasked retry service_exists (relay_step pass) s all =
    let w : World TaskMessage = record { table = s.database.tasks; sent = s.sent } in
    AllRows-map (IsTasked s.database.tasks) (IsTasked (relay_one retry pass w).table)
      s.database.incidents (λ row h. has_task-relay_one retry pass w row.id h) all

-- Where every incident has a task in the outbox, every incident has one after every sequence of
-- requests and of transactions of relays, those that fail included.
pub steps-IsTasked :
    (retry : ℕ) (service_exists : Catalog) (all_steps : List Step) (s : System)
    → AllRows (IsTasked s.database.tasks) s.database.incidents
    → AllRows
        (IsTasked (steps retry service_exists all_steps s).database.tasks)
        (steps retry service_exists all_steps s).database.incidents
unfolding steps
steps-IsTasked retry service_exists [] s all = all
steps-IsTasked retry service_exists (now ∷ later) s all =
    steps-IsTasked retry service_exists later (step retry service_exists now s)
      (step-IsTasked retry service_exists now s all)
