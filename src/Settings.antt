-- ===== src/Settings.antt =====
-- The settings that the workers and the task worker read from the environment:
-- incident-service/app/workers, and execution_state.py and idempotency.py of
-- lambdas/task-worker/src/task_worker. `none` is the error that the loader raises.
use text.Mathlib.Text.{◌==◌ as str_eq}
use opsflow.Prelude.{
  ℕ, zero, suc, ◌≤◌, ◌<◌, ◌≡◌, String, Option, none, some, leb, arith, if◌then◌else◌,
}
use opsflow.Prelude.Int.{ℤ, pos, negsuc}

-- A float, as far as it is compared with zero: NaN is not below, at or above it.
pub data Float : Type 0 where
  not_a_number above_zero zero_or_below : Float

-- `os.getenv`, `str.strip`, and Python's `int` and `float` of a text.
pub record Process : Type 0 where
  pub getenv : String → Option String
  pub strip : String → String
  pub int : String → Option ℤ
  pub float : String → Option Float

infixl 5 ◌>>=◌ ◌>>◌
abbrev ◌>>=◌ {ℓ κ} : {A : Type ℓ} {B : Type κ} → Option A → (A → Option B) → Option B
none >>= f = none
some a >>= f = f a

abbrev ◌>>◌ {ℓ} : {B : Type ℓ} → Option (Unit {0}) → Option B → Option B
m >> k = m >>= λ _. k

abbrev non_empty : String → Option String
non_empty text = if str_eq text "" then none else some text

-- `value <= 0` refuses.
abbrev positive_int : ℤ → Option ℕ
positive_int (pos zero) = none
positive_int (pos (suc n)) = some (suc n)
positive_int (negsuc _) = none

abbrev positive_float : Float → Option Float
positive_float not_a_number = some not_a_number
positive_float above_zero = some above_zero
positive_float zero_or_below = none

abbrev at_least : ℕ → ℤ → Option ℕ
at_least minimum (pos n) = if leb minimum n then some n else none
at_least minimum (negsuc _) = none

pub record OutboxRelaySettings : Type 0 where
  pub queue_url : String
  pub poll_seconds : Float
  pub retry_seconds : ℕ

pub record ReconcilerSettings : Type 0 where
  pub task_execution_table_name : String
  pub status_index_name : String
  pub poll_seconds : Float
  pub batch_size : ℕ
  pub lease_seconds : ℕ

-- The table and the expiration of the task worker's two stores.
pub record StoreSettings : Type 0 where
  pub table_name : String
  pub expiration_seconds : ℕ

abbrev minimum_expiration_seconds : ℕ
minimum_expiration_seconds = 60

module _ (os : Process) where
  abbrev or_empty : Option String → String
  or_empty none = ""
  or_empty (some text) = text

  -- `_required_environment`
  unfoldable pub required_environment : String → Option String
  required_environment name = non_empty (os.strip (or_empty (os.getenv name)))

  -- `_required_environment_variable` of the task worker
  unfoldable pub required_environment_variable : String → Option String
  required_environment_variable name = os.getenv name >>= λ value. non_empty (os.strip value)

  -- `_positive_int_environment`
  unfoldable pub positive_int_environment : String → ℕ → Option ℕ
  positive_int_environment name default = elim (os.getenv name) [
    | none ↦ some default
    | some raw_value ↦ os.int raw_value >>= positive_int
  ]

  -- `_positive_float_environment`
  unfoldable pub positive_float_environment : String → Float → Option Float
  positive_float_environment name default = elim (os.getenv name) [
    | none ↦ some default
    | some raw_value ↦ os.float raw_value >>= positive_float
  ]

  abbrev or_default : String → String → String
  or_default text default = if str_eq text "" then default else text

  abbrev status_index : Option String → String
  status_index none = or_default (os.strip "status-created-at-index") "status-created-at-index"
  status_index (some text) = or_default (os.strip text) "status-created-at-index"

  unfoldable pub load_outbox_relay_settings : Option OutboxRelaySettings
  unfolding required_environment positive_float_environment positive_int_environment
  load_outbox_relay_settings = do
    queue_url ← required_environment "TASK_QUEUE_URL"
    poll ← positive_float_environment "INCIDENT_OUTBOX_RELAY_POLL_SECONDS" above_zero
    retry ← positive_int_environment "INCIDENT_OUTBOX_RELAY_RETRY_SECONDS" 15
    some (record { queue_url = queue_url; poll_seconds = poll; retry_seconds = retry })

  unfoldable pub load_completion_outbox_relay_settings : Option OutboxRelaySettings
  unfolding required_environment positive_float_environment positive_int_environment
  load_completion_outbox_relay_settings = do
    queue_url ← required_environment "REALTIME_NOTIFICATION_QUEUE_URL"
    poll ←
        positive_float_environment "INCIDENT_TASK_COMPLETION_OUTBOX_RELAY_POLL_SECONDS" above_zero
    retry ← positive_int_environment "INCIDENT_TASK_COMPLETION_OUTBOX_RELAY_RETRY_SECONDS" 15
    some (record { queue_url = queue_url; poll_seconds = poll; retry_seconds = retry })

  unfoldable pub load_reconciler_settings : Option ReconcilerSettings
  unfolding required_environment positive_float_environment positive_int_environment
  load_reconciler_settings = do
    table_name ← required_environment "TASK_EXECUTION_TABLE_NAME"
    poll ← positive_float_environment "INCIDENT_TASK_RECONCILER_POLL_SECONDS" above_zero
    batch_size ← positive_int_environment "INCIDENT_TASK_RECONCILER_BATCH_SIZE" 10
    lease_seconds ← positive_int_environment "INCIDENT_TASK_RECONCILER_LEASE_SECONDS" 60
    some (record {
      task_execution_table_name = table_name;
      status_index_name = status_index (os.getenv "TASK_EXECUTION_STATUS_INDEX_NAME");
      poll_seconds = poll;
      batch_size = batch_size;
      lease_seconds = lease_seconds;
    })

  unfoldable pub load_task_execution_settings : Option StoreSettings
  unfolding required_environment_variable
  load_task_execution_settings = do
    table_name ← required_environment_variable "TASK_EXECUTION_TABLE_NAME"
    raw ← required_environment_variable "TASK_EXECUTION_EXPIRATION_SECONDS"
    value ← os.int raw
    seconds ← at_least minimum_expiration_seconds value
    some (record { table_name = table_name; expiration_seconds = seconds })

  unfoldable pub load_idempotency_settings : Option StoreSettings
  unfolding required_environment_variable
  load_idempotency_settings = do
    table_name ← required_environment_variable "IDEMPOTENCY_TABLE_NAME"
    raw ← required_environment_variable "IDEMPOTENCY_EXPIRATION_SECONDS"
    value ← os.int raw
    seconds ← at_least minimum_expiration_seconds value
    some (record { table_name = table_name; expiration_seconds = seconds })

  positive_int_environment_pos :
      (name : String) (default n : ℕ)
      → 0 < default
      → positive_int_environment name default ≡ some n
      → 0 < n
  unfolding positive_int_environment
  positive_int_environment_pos name default n h e = ground arith

  -- A lease that is loaded is not zero, and neither is a batch.
  pub reconciler_settings_pos :
      (settings : ReconcilerSettings)
      → load_reconciler_settings ≡ some settings
      → (0 < settings.batch_size) × (0 < settings.lease_seconds)
  unfolding load_reconciler_settings
  reconciler_settings_pos settings h = (ground arith, ground arith)

  -- A record that is accepted is kept for a minute at least.
  pub task_execution_settings_bounds :
      (settings : StoreSettings)
      → load_task_execution_settings ≡ some settings
      → 60 ≤ settings.expiration_seconds
  unfolding load_task_execution_settings
  task_execution_settings_bounds settings h = ground arith
