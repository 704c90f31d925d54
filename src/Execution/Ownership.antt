-- ===== src/Execution/Ownership.antt =====
-- Who may finish a task: the reconciler whose token the record holds, once, and nobody afterwards.
use opsflow.Prelude.{ℕ, ◌≡◌, ◌≢◌, refl, ◌⊎◌, false, String, none, some, List, [], ◌∷◌, err, arith}
use opsflow.Execution.{
  Status, succeeded, failed, Execution, no_longer_owned, is_token, claim, mark_succeeded,
  mark_retryable_failure, mark_failed, Call, claims, succeeds, retries, fails, step, run,
}

abbrev pub IsFinished : Status → Type 0
IsFinished status = (status ≡ succeeded) ⊎ (status ≡ failed)

step_finished : (call : Call) (e : Execution) → IsFinished e.status → step call e ≡ e
unfolding step claim mark_succeeded mark_retryable_failure mark_failed
step_finished (claims n m l t) e f = ground arith
step_finished (succeeds n t r) e f = ground arith
step_finished (retries n t r) e f = ground arith
step_finished (fails n t r) e f = ground arith

-- A task that has succeeded or failed stays as it is, whatever calls follow.
pub finished_is_final : (calls : List Call) (e : Execution) → IsFinished e.status → run calls e ≡ e
unfolding run
finished_is_final [] e f = refl
finished_is_final (call ∷ calls) e f = rw (step_finished call e f) (finished_is_final calls e f)

-- No claim of the calls has the token.
abbrev pub NotClaimed : ℕ → List Call → Type 0
NotClaimed token [] = Unit
NotClaimed token (claims _ _ _ t ∷ calls) = (t ≢ token) × NotClaimed token calls
NotClaimed token (_ ∷ calls) = NotClaimed token calls

module _ (token : ℕ) (e : Execution) (lost : is_token e.reconciliation_token token ≡ false) where
  step_lost :
      (call : Call)
      → NotClaimed token (call ∷ [])
      → is_token (step call e).reconciliation_token token ≡ false
  unfolding step claim mark_succeeded mark_retryable_failure mark_failed
  step_lost (claims n m l t) ne = ground arith
  step_lost (succeeds n none r) _ = lost
  step_lost (succeeds n (some t) r) _ = ground arith
  step_lost (retries n none r) _ = lost
  step_lost (retries n (some t) r) _ = ground arith
  step_lost (fails n none r) _ = lost
  step_lost (fails n (some t) r) _ = ground arith

run_lost :
    (token : ℕ) (calls : List Call) (e : Execution)
    → is_token e.reconciliation_token token ≡ false
    → NotClaimed token calls
    → is_token (run calls e).reconciliation_token token ≡ false
unfolding run
run_lost token [] e lost ne = lost
run_lost token (claims n m l t ∷ calls) e lost (ne, rest) =
    run_lost token calls (step (claims n m l t) e)
      (step_lost token e lost (claims n m l t) (ne, tt)) rest
run_lost token (succeeds n t r ∷ calls) e lost rest =
    run_lost token calls (step (succeeds n t r) e) (step_lost token e lost (succeeds n t r) tt) rest
run_lost token (retries n t r ∷ calls) e lost rest =
    run_lost token calls (step (retries n t r) e) (step_lost token e lost (retries n t r) tt) rest
run_lost token (fails n t r ∷ calls) e lost rest =
    run_lost token calls (step (fails n t r) e) (step_lost token e lost (fails n t r) tt) rest

-- Every way to finish with the token is refused, and changes nothing.
abbrev pub Refused : ℕ → ℕ → String → Execution → Type 0
Refused now token message e =
    (mark_succeeded now (some token) message e ≡ (err no_longer_owned, e))
    × (mark_retryable_failure now (some token) message e ≡ (err no_longer_owned, e))
    × (mark_failed now (some token) message e ≡ (err no_longer_owned, e))

lost-Refused :
    (now token : ℕ) (message : String) (e : Execution)
    → is_token e.reconciliation_token token ≡ false
    → Refused now token message e
unfolding mark_succeeded mark_retryable_failure mark_failed
lost-Refused now token message e lost = (ground arith, ground arith, ground arith)

token-claim :
    (n m l t token : ℕ) (e c : Execution)
    → (claim n m l t e).0 ≡ some c
    → t ≢ token
    → is_token (claim n m l t e).1.reconciliation_token token ≡ false
unfolding claim
token-claim n m l t token e c h ne = ground arith

-- A reconciler whose lease expired and whose task another one has claimed can finish the task no
-- more: after that claim, and after any calls none of which claims with its token, each of its
-- updates is refused as ownership lost and leaves the record as it is.
pub superseded_claim-Refused :
    (n m l t token now : ℕ) (message : String) (calls : List Call) (e c : Execution)
    → (claim n m l t e).0 ≡ some c
    → t ≢ token
    → NotClaimed token calls
    → Refused now token message (run calls (claim n m l t e).1)
superseded_claim-Refused n m l t token now message calls e c h ne rest =
    lost-Refused now token message (run calls (claim n m l t e).1)
      (run_lost token calls (claim n m l t e).1 (token-claim n m l t token e c h ne) rest)
