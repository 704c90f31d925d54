-- ===== src/Execution/Lease.antt =====
-- A lease that has not expired keeps a task to the reconciler that claimed it.
use opsflow.Prelude.{
  ℕ, ◌+◌, ◌<◌, ◌≡◌, ◌≢◌, refl, String, Option, none, some, List, [], ◌∷◌, ok, arith,
}
use opsflow.Execution.{
  incident_service_processing, succeeded, Execution, claim, mark_succeeded, mark_retryable_failure,
  mark_failed, released, Call, claims, succeeds, retries, fails, step, run,
}

-- A token that is not this one.
abbrev pub OtherToken : ℕ → Option ℕ → Type 0
OtherToken token none = Unit
OtherToken token (some t) = t ≢ token

-- Calls of other reconcilers, whose claims come before the lease expires.
abbrev pub OthersBefore : ℕ → ℕ → List Call → Type 0
OthersBefore lease token [] = Unit
OthersBefore lease token (claims now_epoch _ _ _ ∷ calls) =
    (now_epoch < lease) × OthersBefore lease token calls
OthersBefore lease token (succeeds _ t _ ∷ calls) =
    OtherToken token t × OthersBefore lease token calls
OthersBefore lease token (retries _ t _ ∷ calls) =
    OtherToken token t × OthersBefore lease token calls
OthersBefore lease token (fails _ t _ ∷ calls) = OtherToken token t × OthersBefore lease token calls

-- The record is held with the token until the lease expires.
pub record Holds (lease token : ℕ) (e : Execution) : Type 0 where
  pub processing : e.status ≡ incident_service_processing
  pub until : e.lease_expires_at ≡ some lease
  pub by_token : e.reconciliation_token ≡ some token

module _ (lease token : ℕ) (e : Execution) (h : Holds lease token e) where
  claims_refused : (n m l t : ℕ) → n < lease → step (claims n m l t) e ≡ e
  unfolding step claim
  claims_refused n m l t early = ground (arith, h.processing, h.until)

  succeeds_refused :
      (n : ℕ) (t : Option ℕ) (r : String) → OtherToken token t → step (succeeds n t r) e ≡ e
  unfolding step mark_succeeded
  succeeds_refused n none r o = refl
  succeeds_refused n (some t) r o = ground (arith, h.by_token)

  retries_refused :
      (n : ℕ) (t : Option ℕ) (r : String) → OtherToken token t → step (retries n t r) e ≡ e
  unfolding step mark_retryable_failure
  retries_refused n none r o = refl
  retries_refused n (some t) r o = ground (arith, h.by_token)

  fails_refused :
      (n : ℕ) (t : Option ℕ) (r : String) → OtherToken token t → step (fails n t r) e ≡ e
  unfolding step mark_failed
  fails_refused n none r o = refl
  fails_refused n (some t) r o = ground (arith, h.by_token)

  held_through : (calls : List Call) → OthersBefore lease token calls → run calls e ≡ e
  unfolding run
  held_through [] o = refl
  held_through (claims n m l t ∷ calls) (early, o) =
      rw (claims_refused n m l t early) (held_through calls o)
  held_through (succeeds n t r ∷ calls) (other, o) =
      rw (succeeds_refused n t r other) (held_through calls o)
  held_through (retries n t r ∷ calls) (other, o) =
      rw (retries_refused n t r other) (held_through calls o)
  held_through (fails n t r ∷ calls) (other, o) =
      rw (fails_refused n t r other) (held_through calls o)

claim-Holds :
    (n m l t : ℕ) (e c : Execution)
    → (claim n m l t e).0 ≡ some c
    → ((claim n m l t e).1 ≡ c)
      × Holds (n + l) t c
      × (c.reconciliation_attempts ≡ e.reconciliation_attempts + 1)
unfolding claim
claim-Holds n m l t e c h = (
  ground arith,
  record { processing = ground arith; until = ground arith; by_token = ground arith },
  ground arith,
)

held_finish :
    (lease token now : ℕ) (result : String) (e : Execution)
    → Holds lease token e
    → mark_succeeded now (some token) result e ≡ (
      ok tt,
      record (released e) {
        status = succeeded;
        completed_at = some now;
        updated_at = some now;
        result = some result;
        last_error = none;
      },
    )
unfolding mark_succeeded
held_finish lease token now result e h = ground (arith, h.processing, h.by_token)

-- After a claim is granted, and after any calls of other reconcilers whose tokens are different and
-- whose claims come before the lease expires, the record is as the claim left it, with one more
-- attempt counted; the claimant's success is accepted, and finishes and releases the task.
pub lease_keeps_task :
    (n m l t now : ℕ) (result : String) (calls : List Call) (e c : Execution)
    → (claim n m l t e).0 ≡ some c
    → OthersBefore (n + l) t calls
    → (run calls (claim n m l t e).1 ≡ c)
      × (c.reconciliation_attempts ≡ e.reconciliation_attempts + 1)
      × (mark_succeeded now (some t) result (run calls (claim n m l t e).1) ≡ (
        ok tt,
        record (released c) {
          status = succeeded;
          completed_at = some now;
          updated_at = some now;
          result = some result;
          last_error = none;
        },
      ))
lease_keeps_task n m l t now result calls e c h others =
    let (same, holds, attempts) = claim-Holds n m l t e c h in
    let kept = held_through (n + l) t c holds calls others in
    (rw same kept, attempts, rw (same, kept) (held_finish (n + l) t now result c holds))
