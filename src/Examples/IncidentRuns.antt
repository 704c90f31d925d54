-- ===== src/Examples/IncidentRuns.antt =====
-- Runs of the theorems about incidents: an incident is created, updated, relayed and processed twice.
use opsflow.Prelude.{err, ap, inl, ℕ, ◌≡◌, refl, true, false, none, some, List, [], ◌∷◌, ok}
use opsflow.Incidents.{Incident, IncidentTable, get_by_id, sev_2, opened, investigating, resolved}
use opsflow.Incidents.Rows.{AllRows}
use opsflow.Incidents.Service.{
  Database, Catalog, Draw, IncidentCreate, IncidentUpdate, new_incident,
}
use opsflow.Incidents.Routes.{create, run_service, serve}
use opsflow.Gateway.Remote.{call_remote, scope_for, method_of, required_scope}
use opsflow.Gateway.Remote.Agreement.{seen, committed_rows, remote_agrees}
use opsflow.Incidents.Processing.{
  IncidentProcessingResult, Processed, CompletionDraw, process_read, returned,
  process_incident_with_postgres,
}
use opsflow.Incidents.Requests.{
  create_request, update_request, delete_request, process_request, Request, handle_all,
}
use opsflow.Incidents.Invariants.Resolution.{IsConsistent, handle_all-resolved}
use opsflow.Incidents.Invariants.Tasked.{
  IsTasked, Step, request_step, relay_step, System, steps, steps-IsTasked,
}
use opsflow.Incidents.Invariants.Stale.{stale_processing_undoes}
use opsflow.Incidents.Invariants.Acknowledged.{IsAcknowledged}
use opsflow.Incidents.Invariants.Reprocessing.{reprocess_lem}
use opsflow.Outbox.Worker.{answer_lost}

abbrev known_services : Catalog
known_services service_id = ok true

abbrev empty_database : Database
empty_database = record { incidents = []; tasks = [] }

abbrev outage : IncidentCreate
outage = record {
  title = "Checkout down";
  service_id = 5;
  severity = sev_2;
  status = opened;
  summary = "500s";
  assignee = "ana";
  source = "manual";
  customer_impacting = true;
  acknowledged_at = none;
  reported_by_email = none;
  started_at = none;
}

abbrev outage_draw : Draw
outage_draw = record {
  now = 100;
  incident_id = 1;
  task_id = 2;
  new_correlation_id = "c-1";
  outbox_id = 3;
  uuid_text = λ _. "id";
}

abbrev to_resolved : IncidentUpdate
to_resolved = record {
  title = none;
  service_id = none;
  severity = none;
  status = some resolved;
  summary = none;
  assignee = none;
  source = none;
  customer_impacting = none;
  acknowledged_at = none;
  started_at = none;
  resolved_at = none;
}

abbrev incident_requests : List Request
incident_requests =
    create_request outage_draw outage (some "")
    ∷ process_request 110 111 1
    ∷ update_request 120 121 1 to_resolved
    ∷ process_request 130 131 1
    ∷ delete_request 9
    ∷ []

handle_all-resolved_example :
    AllRows IsConsistent (handle_all known_services incident_requests empty_database).incidents
handle_all-resolved_example = handle_all-resolved known_services incident_requests empty_database tt

abbrev system_steps : List Step
system_steps =
    request_step (create_request outage_draw outage none)
    ∷ relay_step (record {
      now = 200;
      finished_at = 201;
      locked = λ _. false;
      send = answer_lost "timeout";
      commits = true;
    })
    ∷ request_step (process_request 210 211 1)
    ∷ []

abbrev empty_system : System
empty_system = record { database = empty_database; sent = [] }

steps-IsTasked_example :
    AllRows
      (IsTasked (steps 50 known_services system_steps empty_system).database.tasks)
      (steps 50 known_services system_steps empty_system).database.incidents
steps-IsTasked_example = steps-IsTasked 50 known_services system_steps empty_system tt

abbrev open_incident : Incident
open_incident = record {
  id = 1;
  title = "Checkout down";
  service_id = 5;
  severity = sev_2;
  status = opened;
  summary = "500s";
  assignee = "ana";
  started_at = 100;
  resolved_at = none;
  created_at = 100;
  updated_at = 100;
  source = "manual";
  customer_impacting = true;
  acknowledged_at = none;
  reported_by_email = none;
}

abbrev before_processing : Processed
before_processing = record { incidents = open_incident ∷ []; completions = [] }

abbrev draw_at : ℕ → CompletionDraw
draw_at now = record {
  acknowledging = now;
  now = now;
  occurred_at = now;
  outbox_id = now;
  event_id = now;
}

abbrev first_result : IncidentProcessingResult
first_result = record {
  incident_id = 1;
  status = investigating;
  changed = true;
  acknowledged_at = some 300;
}

abbrev after_processing : Processed
after_processing =
    (process_incident_with_postgres true (draw_at 300) (some 2) 1 "c-1" before_processing).1

first_run :
    process_incident_with_postgres true (draw_at 300) (some 2) 1 "c-1" before_processing
    ≡ (returned first_result, after_processing)
unfolding process_incident_with_postgres
first_run = refl

reprocess_lem_example :
    (process_incident_with_postgres true (draw_at 400) (some 2) 1 "c-1" after_processing
      ≡ (returned (record first_result { changed = false }), after_processing))
    × IsAcknowledged
        (draw_at 300).acknowledging
        1
        before_processing.incidents
        first_result
        after_processing.incidents
reprocess_lem_example =
    reprocess_lem true (draw_at 300) (draw_at 400) 2 1 "c-1" before_processing after_processing
      first_result first_run

abbrev resolved_meanwhile : Incident
resolved_meanwhile = record open_incident { status = resolved; resolved_at = some 250 }

resolved_row : get_by_id 1 (resolved_meanwhile ∷ []) ≡ some resolved_meanwhile
unfolding get_by_id
resolved_row = refl

stale_processing_undoes_example :
    (result : IncidentProcessingResult) × (table' : IncidentTable) × (row : Incident)
    × (process_read 300 301 open_incident (resolved_meanwhile ∷ []) ≡ some (result, table'))
    × (get_by_id 1 table' ≡ some row)
    × (result.status ≡ investigating)
    × (row.status ≡ investigating)
    × (row.resolved_at ≡ none)
    × (row.title ≡ "Checkout down")
stale_processing_undoes_example =
    stale_processing_undoes 300 301 open_incident resolved_meanwhile (resolved_meanwhile ∷ []) refl
      resolved_row refl

abbrev created_incident : Incident
created_incident = new_incident outage_draw outage

created_alone :
    (incident : Incident) (db' : Database)
    → run_service known_services (create outage_draw outage none) empty_database
      ≡ ok (some incident, db')
    → some created_incident ≡ some incident
unfolding run_service
created_alone incident db' run = ap (λ r. elim r [ ok (created, _) ↦ created | err _ ↦ none ]) run

remote_agrees_example :
    (call_remote
        (λ body. some created_incident)
        (create outage_draw outage none)
        (ok
          (serve
            (λ incident. "json")
            known_services
            (create outage_draw outage none)
            empty_database).0)
      ≡ seen (run_service known_services (create outage_draw outage none) empty_database))
    × (scope_for (method_of (create outage_draw outage none))
        ≡ required_scope (create outage_draw outage none))
    × ((serve (λ incident. "json") known_services (create outage_draw outage none) empty_database).1
        ≡ committed_rows empty_database
            (run_service known_services (create outage_draw outage none) empty_database))
remote_agrees_example =
    remote_agrees (λ incident. "json") (λ body. some created_incident) known_services
      (create outage_draw outage none) empty_database (λ id. inl (true, refl)) created_alone
