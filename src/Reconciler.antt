-- ===== src/Reconciler.antt =====
-- incident-service/app/workers/incident_task_reconciler.py: class IncidentTaskReconciler. What the
-- processor answers for each task, and whether an update of the table of executions arrives, are
-- arguments; the log is not modelled.
pub mod Summary
pub mod Progress
use opsflow.Prelude.{ℕ, ◌+◌, length, String, Option, none, some, List, [], ◌∷◌, Result, ok, err}
use opsflow.Execution.{
  Execution, OwnershipLost, claim, mark_succeeded, mark_retryable_failure, mark_failed,
}

-- How `_processor` ends: a result, `IncidentNotFoundError`, `RetryableIncidentTaskProcessingError`, or
-- an exception of another class, which leaves the reconciler.
pub data Processed : Type 0 where
  processed incident_not_found retryable_error : String → Processed
  other_exception : Processed

-- What becomes of an update: it is applied; it fails (`BotoCoreError` or `ClientError`) before it is
-- applied; or it is applied and its answer is lost.
pub data Delivery : Type 0 where
  applied not_applied answer_lost : Delivery

pub data UpdateError : Type 0 where
  ownership_lost client_error : UpdateError

abbrev pub seen : Result OwnershipLost (Unit {0}) → Result UpdateError (Unit {0})
seen (ok u) = ok u
seen (err _) = err ownership_lost

abbrev pub deliver :
    Delivery
    → (Execution → Result OwnershipLost (Unit {0}) × Execution)
    → Execution
    → Result UpdateError (Unit {0}) × Execution
deliver applied update e = let (answer, e') = update e in (seen answer, e')
deliver not_applied update e = (err client_error, e)
deliver answer_lost update e = (err client_error, (update e).1)

pub data ReconciliationOutcome : Type 0 where
  task_succeeded retryable_failure permanent_failure : ReconciliationOutcome

-- `_safe_mark_retryable` and `_safe_mark_failed` log the errors of the update.
unfoldable pub safe_mark_retryable : ℕ → Option ℕ → String → Delivery → Execution → Execution
safe_mark_retryable now token error d e = (deliver d (mark_retryable_failure now token error) e).1

unfoldable pub safe_mark_failed : ℕ → Option ℕ → String → Delivery → Execution → Execution
safe_mark_failed now token error d e = (deliver d (mark_failed now token error) e).1

abbrev pub after_success : Result UpdateError (Unit {0}) → ReconciliationOutcome
after_success (ok _) = task_succeeded
after_success (err _) = retryable_failure

-- `_reconcile_claimed`; `none` is the exception that leaves it.
unfoldable pub reconcile_claimed :
    ℕ → Option ℕ → Processed → Delivery → Execution → Option ReconciliationOutcome × Execution
unfolding safe_mark_retryable safe_mark_failed
reconcile_claimed now token (incident_not_found error) d e =
    (some permanent_failure, safe_mark_failed now token error d e)
reconcile_claimed now token (retryable_error error) d e =
    (some retryable_failure, safe_mark_retryable now token error d e)
reconcile_claimed now token (processed result) d e =
    let (answer, e') = deliver d (mark_succeeded now token result) e in
    (some (after_success answer), e')
reconcile_claimed now token other_exception d e = (none, e)

pub record ReconciliationSummary : Type 0 where
  pub discovered : ℕ
  pub claimed : ℕ
  pub succeeded_count : ℕ
  pub retryable_failures : ℕ
  pub permanent_failures : ℕ
  pub skipped : ℕ

-- One candidate of a pass: its record at the time of the claim, the claim's arguments, and what
-- happens in its reconciliation.
pub record Candidate : Type 0 where
  pub execution : Execution
  pub now_epoch : ℕ
  pub started_at : ℕ
  pub token : ℕ
  pub finished_at : ℕ
  pub answer : Processed
  pub delivery : Delivery

abbrev pub count : Option ReconciliationOutcome → ReconciliationSummary → ReconciliationSummary
count none s = s
count (some task_succeeded) s = record s { succeeded_count = s.succeeded_count + 1 }
count (some retryable_failure) s = record s { retryable_failures = s.retryable_failures + 1 }
count (some permanent_failure) s = record s { permanent_failures = s.permanent_failures + 1 }

abbrev pub after_claim :
    Candidate → Option Execution → Execution → Option (Option ReconciliationOutcome) × Execution
after_claim c none e = (none, e)
after_claim c (some mine) e =
    let (outcome, e') =
      reconcile_claimed c.finished_at mine.reconciliation_token c.answer c.delivery e in
    (some outcome, e')

-- The claim of a candidate and the reconciliation of what was claimed: the record after it.
unfoldable pub attempt : ℕ → Candidate → Option (Option ReconciliationOutcome) × Execution
attempt lease_seconds c =
    let (mine, e) = claim c.now_epoch c.started_at lease_seconds c.token c.execution in
    after_claim c mine e

-- The body of the loop of `reconcile_once`, after `attempt`; `none` is an exception.
abbrev pub tally :
    Option (Option ReconciliationOutcome) → ReconciliationSummary → Option ReconciliationSummary
tally none s = some (record s { skipped = s.skipped + 1 })
tally (some none) s = none
tally (some (some outcome)) s = some (count (some outcome) (record s { claimed = s.claimed + 1 }))

-- The loop of `reconcile_once`; an exception ends the pass.
unfoldable pub reconcile_all :
    ℕ → List Candidate → ReconciliationSummary → Option ReconciliationSummary
reconcile_all lease_seconds [] s = some s
reconcile_all lease_seconds (c ∷ candidates) s = elim (tally (attempt lease_seconds c).0 s) [
  | none ↦ none
  | some s' ↦ reconcile_all lease_seconds candidates s'
]

unfoldable pub reconcile_once : ℕ → List Candidate → Option ReconciliationSummary
unfolding reconcile_all
reconcile_once lease_seconds candidates = reconcile_all lease_seconds candidates (record {
  discovered = length candidates;
  claimed = 0;
  succeeded_count = 0;
  retryable_failures = 0;
  permanent_failures = 0;
  skipped = 0;
})
