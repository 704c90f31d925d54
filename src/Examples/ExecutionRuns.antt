-- ===== src/Examples/ExecutionRuns.antt =====
-- Runs of the table of executions and of the reconciler.
use opsflow.Prelude.{◌≡◌, refl, ◌⊎◌, String, none, some, List, [], ◌∷◌, ok, length, arith}
use opsflow.Execution.{
  Execution, ready_for_incident_service, succeeded, claim, mark_succeeded, released, Call, claims,
  succeeds, retries, fails, run,
}
use opsflow.Execution.Ownership.{IsFinished, Refused, superseded_claim-Refused}
use opsflow.Execution.Lease.{Holds, lease_keeps_task}
use opsflow.Reconciler.{
  processed, incident_not_found, applied, not_applied, reconcile_claimed, Candidate, attempt,
  reconcile_once, ReconciliationSummary,
}
use opsflow.Reconciler.Summary.{AddsUp, reconcile_once-AddsUp}
use opsflow.Reconciler.Progress.{reported_success_recorded, task_never_stuck}

abbrev waiting : Execution
waiting = record {
  status = ready_for_incident_service;
  reconciliation_attempts = 0;
  lease_expires_at = none;
  reconciliation_token = none;
  reconciliation_started_at = none;
  updated_at = none;
  completed_at = none;
  failed_at = none;
  result = none;
  last_error = none;
}

abbrev held : Execution
held = (claim 100 100 60 7 waiting).1

abbrev done : Execution
done = record waiting { status = succeeded; completed_at = some 5; result = some "resolved" }

-- The other reconciler claims too early, reports with its own token, and fails.
abbrev others : List Call
others = claims 120 120 60 8 ∷ succeeds 121 (some 8) "x" ∷ fails 122 none "x" ∷ []

-- Token 7 expires at 160; token 8 claims at 200.
superseded_claim-Refused_example :
    Refused 210 7 "late" (run (retries 205 (some 8) "again" ∷ []) (claim 200 200 60 8 held).1)
unfolding claim
superseded_claim-Refused_example =
    superseded_claim-Refused 200 200 60 8 7 210 "late" (retries 205 (some 8) "again" ∷ []) held
      (claim 200 200 60 8 held).1 refl (omega arith) tt

lease_keeps_task_example :
    (run others held ≡ held)
    × (held.reconciliation_attempts ≡ 1)
    × (mark_succeeded 150 (some 7) "resolved" (run others held) ≡ (
      ok tt,
      record (released held) {
        status = succeeded;
        completed_at = some 150;
        updated_at = some 150;
        result = some "resolved";
        last_error = none;
      },
    ))
unfolding claim
lease_keeps_task_example =
    lease_keeps_task 100 100 60 7 150 "resolved" others waiting held refl
      (omega arith, (omega arith, (tt, tt)))

reported_success_recorded_example :
    (result : String) × (processed "resolved" ≡ processed result)
    × ((reconcile_claimed 150 (some 7) (processed "resolved") applied held).1.status ≡ succeeded)
    × ((reconcile_claimed 150 (some 7) (processed "resolved") applied held).1.result ≡ some result)
unfolding claim reconcile_claimed mark_succeeded
reported_success_recorded_example =
    reported_success_recorded 150 (some 7) (processed "resolved") applied held refl

held-Holds : Holds 160 7 held
unfolding claim
held-Holds = record { processing = refl; until = refl; by_token = refl }

task_never_stuck_example :
    IsFinished
      (reconcile_claimed 150 (some 7) (incident_not_found "gone") not_applied held).1.status
    ⊎ ((c : Execution) × ((claim 160 160 60 8
            (reconcile_claimed 150 (some 7) (incident_not_found "gone") not_applied held).1).0
          ≡ some c))
task_never_stuck_example =
    task_never_stuck 160 7 150 (incident_not_found "gone") not_applied held 160 160 60 8 held-Holds
      (omega arith)

-- One task that is claimed and succeeds, and one that is finished already.
abbrev candidates : List Candidate
candidates =
    (record {
      execution = waiting;
      now_epoch = 100;
      started_at = 100;
      token = 7;
      finished_at = 150;
      answer = processed "resolved";
      delivery = applied;
    })
    ∷ (record {
      execution = done;
      now_epoch = 151;
      started_at = 151;
      token = 8;
      finished_at = 152;
      answer = processed "resolved";
      delivery = applied;
    })
    ∷ []

abbrev summary : ReconciliationSummary
summary = record {
  discovered = 2;
  claimed = 1;
  succeeded_count = 1;
  retryable_failures = 0;
  permanent_failures = 0;
  skipped = 1;
}

reconcile_once-AddsUp_example : AddsUp 2 summary × (2 ≡ length candidates)
unfolding reconcile_once claim reconcile_claimed mark_succeeded attempt
reconcile_once-AddsUp_example = reconcile_once-AddsUp 60 candidates summary refl
