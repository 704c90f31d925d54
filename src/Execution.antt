-- ===== src/Execution.antt =====
-- incident-service/app/domain/incident_task_execution.py and
-- incident-service/app/repositories/dynamodb_incident_task_execution_repository.py: the record of one
-- task in the table of executions. A conditional update is one step of the table. Times are seconds
-- since the epoch (`now_epoch`), the ISO times are kept as the same kind of number (`now`); a
-- reconciliation token is a fresh UUID, a number that is only compared.
pub mod Ownership
pub mod Lease
use Prim.Native.String
use opsflow.Prelude.{
  ℕ, zero, suc, ◌+◌, Bool, true, false, ◌&&◌, ◌||◌, String, Option, none, some, List, [], ◌∷◌,
  Result, ok, err, leb, ◌==◌, if◌then◌else◌,
}

pub data Status : Type 0 where
  ready_for_incident_service incident_service_processing succeeded failed : Status

-- The attributes that reconciliation reads or writes; one that is absent is `none`.
pub record Execution : Type 0 where
  pub status : Status
  pub reconciliation_attempts : ℕ
  pub lease_expires_at : Option ℕ
  pub reconciliation_token : Option ℕ
  pub reconciliation_started_at : Option ℕ
  pub updated_at : Option ℕ
  pub completed_at : Option ℕ
  pub failed_at : Option ℕ
  pub result : Option String
  pub last_error : Option String

-- `ExecutionStateOwnershipLostError`
pub data OwnershipLost : Type 0 where
  no_token no_longer_owned : OwnershipLost

abbrev pub is_ready : Status → Bool
is_ready ready_for_incident_service = true
is_ready _ = false

abbrev pub is_processing : Status → Bool
is_processing incident_service_processing = true
is_processing _ = false

-- `lease_expires_at <= :now_epoch`, which is false of an attribute that is absent.
abbrev pub lease_over : Option ℕ → ℕ → Bool
lease_over none now_epoch = false
lease_over (some lease) now_epoch = leb lease now_epoch

-- `reconciliation_token = :token`, likewise.
abbrev pub is_token : Option ℕ → ℕ → Bool
is_token none token = false
is_token (some t) token = t == token

-- `claim`: the claimed execution, or `none` where the condition fails.
unfoldable pub claim :
    (now_epoch now lease_seconds token : ℕ) → Execution → Option Execution × Execution
claim now_epoch now lease_seconds token e =
    let claimed = record e {
      status = incident_service_processing;
      reconciliation_started_at = some now;
      reconciliation_token = some token;
      lease_expires_at = some (now_epoch + lease_seconds);
      updated_at = some now;
      reconciliation_attempts = e.reconciliation_attempts + 1;
    } in
    if is_ready e.status || (is_processing e.status && lease_over e.lease_expires_at now_epoch)
    then (some claimed, claimed)
    else (none, e)

-- `_update_owned_execution`, with the token of the worker's copy of the execution.
unfoldable pub update_owned_execution :
    Option ℕ → (Execution → Execution) → Execution → Result OwnershipLost (Unit {0}) × Execution
update_owned_execution none change e = (err no_token, e)
update_owned_execution (some token) change e =
    if is_processing e.status && is_token e.reconciliation_token token
    then (ok tt, change e)
    else (err no_longer_owned, e)

-- `error[:1000]`
unfoldable pub first_characters : ℕ → String → String
first_characters zero text = ""
first_characters (suc n) String.[] = ""
first_characters (suc n) (String.◌∷◌ ch rest) = String.◌∷◌ ch (first_characters n rest)

-- The `REMOVE` of the claim's attributes.
abbrev pub released : Execution → Execution
released e = record e {
  lease_expires_at = none;
  reconciliation_started_at = none;
  reconciliation_token = none;
}

unfoldable pub mark_succeeded :
    ℕ → Option ℕ → String → Execution → Result OwnershipLost (Unit {0}) × Execution
unfolding update_owned_execution
mark_succeeded now token result = update_owned_execution token (λ e. record (released e) {
  status = succeeded;
  completed_at = some now;
  updated_at = some now;
  result = some result;
  last_error = none;
})

unfoldable pub mark_retryable_failure :
    ℕ → Option ℕ → String → Execution → Result OwnershipLost (Unit {0}) × Execution
unfolding update_owned_execution
mark_retryable_failure now token error = update_owned_execution token (λ e. record (released e) {
  status = ready_for_incident_service;
  updated_at = some now;
  last_error = some (first_characters 1000 error);
})

unfoldable pub mark_failed :
    ℕ → Option ℕ → String → Execution → Result OwnershipLost (Unit {0}) × Execution
unfolding update_owned_execution
mark_failed now token error = update_owned_execution token (λ e. record (released e) {
  status = failed;
  failed_at = some now;
  updated_at = some now;
  last_error = some (first_characters 1000 error);
})

-- One conditional update of the record, by any reconciler.
pub data Call : Type 0 where
  claims : (now_epoch now lease_seconds token : ℕ) → Call
  succeeds retries fails : ℕ → Option ℕ → String → Call

unfoldable pub step : Call → Execution → Execution
step (claims now_epoch now lease_seconds token) e = (claim now_epoch now lease_seconds token e).1
step (succeeds now token result) e = (mark_succeeded now token result e).1
step (retries now token error) e = (mark_retryable_failure now token error e).1
step (fails now token error) e = (mark_failed now token error e).1

unfoldable pub run : List Call → Execution → Execution
run [] e = e
run (call ∷ calls) e = run calls (step call e)
