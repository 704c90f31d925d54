-- ===== src/Examples/WorkerRuns.antt =====
-- Runs of the theorems about the task worker: a batch with a bad body, a good one, and its duplicate.
use opsflow.Prelude.{◌≡◌, refl, false, none, some, List, [], ◌∷◌, ◌==◌, if◌then◌else◌}
use text.Mathlib.Text.{◌==◌ as str_eq}
use opsflow.Worker.{incident_id_text, Task, Table}
use opsflow.Worker.Store.{applied, failing, get_item, new_item}
use opsflow.Worker.Envelope.{build_envelope, IsArrived, task_arrives}
use opsflow.Incidents.Service.{Draw, processing_task}
use opsflow.Worker.Handler.{calls, Answers, SqsRecord, message, Python, lambda_handler}
use opsflow.Worker.Batch.{IsAccepted, lambda_handler-IsAccepted}

abbrev processing : Task
processing = record {
  task_id = "t-1";
  task_type = "incident.processing.requested";
  schema_version = "1.0";
  producer = "incident-service";
  idempotency_key = "incident:i-1:process:v1";
  correlation_id = "c-1";
  causation_id = none;
  payload = incident_id_text "i-1";
  metadata = none;
  created_at = "2026-01-01T00:00:00Z";
}

abbrev python : Python
python = record {
  strip = λ s. s;
  uuid = λ s. some s;
  parsed = λ body. if str_eq body "good" then some (some processing) else none;
}

abbrev answers : Answers
answers = record { idempotency = calls; accepted_at = 10; epoch = 10; put = applied false }

abbrev bad_record : List SqsRecord
bad_record = message "m-1" (some "bad") answers ∷ []

abbrev duplicate : List SqsRecord
duplicate = message "m-3" (some "good") (record answers { put = failing }) ∷ []

batch_run :
    lambda_handler python 600
      (message "m-1" (some "bad") answers
        ∷ message "m-2" (some "good") answers
        ∷ message "m-3" (some "good") (record answers { put = failing })
        ∷ [])
      []
    ≡ (some ("m-1" ∷ "m-3" ∷ []), new_item 10 10 600 processing "i-1" ∷ [])
unfolding lambda_handler
batch_run = refl

lambda_handler-IsAccepted_example :
    IsAccepted python 600 processing (new_item 10 10 600 processing "i-1" ∷ [])
lambda_handler-IsAccepted_example =
    lambda_handler-IsAccepted python 600 bad_record duplicate "m-2" "good" answers processing
      ("m-1" ∷ "m-3" ∷ []) [] (new_item 10 10 600 processing "i-1" ∷ []) refl refl refl batch_run
      refl

abbrev draw : Draw
draw = record {
  now = 5;
  incident_id = 1;
  task_id = 2;
  new_correlation_id = "c-1";
  outbox_id = 3;
  uuid_text = λ n. if n == 1 then "i-1" else "t-1";
}

abbrev reading : Python
reading = record python {
  parsed = λ body.
      if str_eq body "t-1"
      then some (some (build_envelope draw.uuid_text (λ n. "") (processing_task draw none)))
      else none;
}

task_arrives_example :
    (table' : Table) × (lambda_handler reading 600
        (message "m-1" (some "t-1") answers ∷ message "m-2" (some "t-1") answers ∷ [])
        []
      ≡ (some [], table'))
    × IsArrived draw none table'
unfolding build_envelope get_item
task_arrives_example =
    task_arrives reading (λ n. "") 600 draw none answers false (λ task. task.task_id) [] answers
      "m-1" "m-2" (refl, refl, refl) refl refl refl refl refl
