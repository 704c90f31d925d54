-- ===== src/Reconciler/Progress.antt =====
-- What a reconciliation leaves in the table: a success that is reported is recorded, and a task that
-- is not finished can be claimed again.
use opsflow.Prelude.{
  ℕ, ◌≤◌, ◌≡◌, refl, ◌⊎◌, inl, inr, true, ◌&&◌, ◌||◌, String, Option, none, some, arith,
}
use opsflow.Execution.{
  succeeded, Execution, is_ready, is_processing, lease_over, claim, mark_succeeded,
  mark_retryable_failure, mark_failed,
}
use opsflow.Execution.Ownership.{IsFinished}
use opsflow.Execution.Lease.{Holds}
use opsflow.Reconciler.{
  Processed, processed, incident_not_found, retryable_error, other_exception, Delivery, applied,
  not_applied, answer_lost, task_succeeded, reconcile_claimed,
}

-- A reconciliation that reports success has recorded its result, whatever others have done to the
-- record since the claim.
pub reported_success_recorded :
    (now : ℕ) (token : Option ℕ) (p : Processed) (d : Delivery) (e : Execution)
    → (reconcile_claimed now token p d e).0 ≡ some task_succeeded
    → (result : String) × (p ≡ processed result)
      × ((reconcile_claimed now token p d e).1.status ≡ succeeded)
      × ((reconcile_claimed now token p d e).1.result ≡ some result)
unfolding reconcile_claimed mark_succeeded
reported_success_recorded now none (processed r) applied e h = ground arith
reported_success_recorded now (some t) (processed r) applied e h =
    (r, refl, ground arith, ground arith)
reported_success_recorded now token (processed r) not_applied e h = ground arith
reported_success_recorded now token (processed r) answer_lost e h = ground arith
reported_success_recorded now token (incident_not_found x) d e h = ground arith
reported_success_recorded now token (retryable_error x) d e h = ground arith
reported_success_recorded now token other_exception d e h = ground arith

claim_granted :
    (later s l t : ℕ) (e : Execution)
    → (is_ready e.status || (is_processing e.status && lease_over e.lease_expires_at later)) ≡ true
    → (c : Execution) × ((claim later s l t e).0 ≡ some c)
unfolding claim
claim_granted later s l t e free = ((claim later s l t e).1, ground arith)

-- However the reconciliation of a held task ends, and whatever becomes of its update, the task is
-- finished afterwards, or a claim at any time from the lease's expiry on is granted.
pub task_never_stuck :
    (lease token now : ℕ) (p : Processed) (d : Delivery) (e : Execution)
    (later started lease' token' : ℕ)
    → Holds lease token e
    → lease ≤ later
    → let after = (reconcile_claimed now (some token) p d e).1 in
      IsFinished after.status
      ⊎ ((c : Execution) × ((claim later started lease' token' after).0 ≡ some c))
unfolding reconcile_claimed mark_succeeded mark_failed mark_retryable_failure
task_never_stuck lease token now (processed r) applied e later s l t h expired =
    inl (inl (ground (arith, h.processing, h.by_token)))
task_never_stuck lease token now (processed r) answer_lost e later s l t h expired =
    inl (inl (ground (arith, h.processing, h.by_token)))
task_never_stuck lease token now (incident_not_found r) applied e later s l t h expired =
    inl (inr (ground (arith, h.processing, h.by_token)))
task_never_stuck lease token now (incident_not_found r) answer_lost e later s l t h expired =
    inl (inr (ground (arith, h.processing, h.by_token)))
task_never_stuck lease token now (retryable_error r) applied e later s l t h expired =
    inr (claim_granted later s l t _ (ground (arith, h.processing, h.by_token)))
task_never_stuck lease token now (retryable_error r) answer_lost e later s l t h expired =
    inr (claim_granted later s l t _ (ground (arith, h.processing, h.by_token)))
task_never_stuck lease token now (processed r) not_applied e later s l t h expired =
    inr (claim_granted later s l t _ (ground (arith, h.processing, h.until)))
task_never_stuck lease token now (incident_not_found r) not_applied e later s l t h expired =
    inr (claim_granted later s l t _ (ground (arith, h.processing, h.until)))
task_never_stuck lease token now (retryable_error r) not_applied e later s l t h expired =
    inr (claim_granted later s l t _ (ground (arith, h.processing, h.until)))
task_never_stuck lease token now other_exception d e later s l t h expired =
    inr (claim_granted later s l t _ (ground (arith, h.processing, h.until)))
