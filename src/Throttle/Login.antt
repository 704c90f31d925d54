-- ===== src/Throttle/Login.antt =====
-- backend/app/core/login_throttle.py: `InMemoryLoginThrottle`. Each method holds the lock for its
-- whole effect, so it is one step; the clock's reading is an argument.
pub mod Log
pub mod Refines
pub mod Limit
use text.Mathlib.Text.{◌==◌ as str_eq}
use opsflow.Prelude.{
  ℕ, ◌*◌, Bool, true, false, String, Option, none, some, List, [], ◌∷◌, length, Result, ok, err,
  second, leb, if◌then◌else◌,
}
use opsflow.Dict.{pop}
use opsflow.Throttle.Keys.{TextRuntime, normalized, opaque_key}
use opsflow.Throttle.Store.{Store, get_active_entries, append_entry}

pub data ThrottleReason : Type 0 where
  ip account : ThrottleReason

pub record LoginThrottleDecision : Type 0 where
  pub allowed : Bool
  pub blocked_by : Option ThrottleReason

pub data ConfigError : Type 0 where
  no_secret bad_ip_max_attempts bad_ip_window bad_account_max_failures bad_account_window :
      ConfigError

-- The windows are kept in seconds, as they are given.
pub record LoginThrottle : Type 0 where
  pub secret_key : String
  pub ip_max_attempts : ℕ
  pub ip_window_seconds : ℕ
  pub account_max_failures : ℕ
  pub account_window_seconds : ℕ
  pub ip_attempts : Store
  pub account_failures : Store

unfoldable pub new : String → ℕ → ℕ → ℕ → ℕ → Result ConfigError LoginThrottle
new secret ip_max ip_window account_max account_window =
    if str_eq secret ""
    then err no_secret
    else if leb ip_max 0
    then err bad_ip_max_attempts
    else if leb ip_window 0
    then err bad_ip_window
    else if leb account_max 0
    then err bad_account_max_failures
    else if leb account_window 0
    then err bad_account_window
    else ok (record {
      secret_key = secret;
      ip_max_attempts = ip_max;
      ip_window_seconds = ip_window;
      account_max_failures = account_max;
      account_window_seconds = account_window;
      ip_attempts = [];
      account_failures = [];
    })

abbrev pub ip_window : LoginThrottle → ℕ
ip_window t = t.ip_window_seconds * second

abbrev pub account_window : LoginThrottle → ℕ
account_window t = t.account_window_seconds * second

abbrev pub allow : LoginThrottleDecision
allow = record { allowed = true; blocked_by = none }

abbrev pub block : ThrottleReason → LoginThrottleDecision
block reason = record { allowed = false; blocked_by = some reason }

module _ (text : TextRuntime) where
  abbrev pub account_key : LoginThrottle → String → String
  account_key t account_identifier =
      opaque_key text t.secret_key "account" (normalized text account_identifier)

  abbrev pub ip_key : LoginThrottle → String → String
  ip_key t client_address = opaque_key text t.secret_key "ip" client_address

  -- The end of `begin_attempt`, after the source address was let through and counted.
  check_account : ℕ → String → LoginThrottle → LoginThrottleDecision × LoginThrottle
  check_account now key t =
      let (failures, storage) = get_active_entries t.account_failures key now (account_window t) in
      (
        (if leb t.account_max_failures (length failures) then block account else allow),
        record t { account_failures = storage },
      )

  unfoldable pub begin_attempt :
      ℕ → String → String → LoginThrottle → LoginThrottleDecision × LoginThrottle
  unfolding check_account
  begin_attempt now client_address account_identifier t =
      let key = ip_key t client_address in
      let (attempts, storage) = get_active_entries t.ip_attempts key now (ip_window t) in
      if leb t.ip_max_attempts (length attempts)
      then (block ip, record t { ip_attempts = storage })
      else check_account now (account_key t account_identifier)
          (record t { ip_attempts = append_entry key now storage })

  unfoldable pub record_failure : ℕ → String → LoginThrottle → LoginThrottle
  record_failure now account_identifier t =
      let key = account_key t account_identifier in
      let (failures, storage) = get_active_entries t.account_failures key now (account_window t) in
      record t { account_failures = append_entry key now storage }

  unfoldable pub record_success : String → LoginThrottle → LoginThrottle
  record_success account_identifier t = record t {
    account_failures = pop (account_key t account_identifier) t.account_failures;
  }

-- Only the tests of the program call it.
unfoldable pub reset : LoginThrottle → LoginThrottle
reset t = record t { ip_attempts = []; account_failures = [] }

-- One call of a method of the protocol `LoginThrottle`.
pub data Call : Type 0 where
  begins : ℕ → String → String → Call
  fails : ℕ → String → Call
  succeeds : String → Call

-- The decisions of a sequence of calls, and the throttle after it.
unfoldable pub run :
    TextRuntime → List Call → LoginThrottle → List LoginThrottleDecision × LoginThrottle
run text [] t = ([], t)
run text (begins now address identifier ∷ calls) t =
    let (decision, t') = begin_attempt text now address identifier t in
    let (decisions, t'') = run text calls t' in (decision ∷ decisions, t'')
run text (fails now identifier ∷ calls) t = run text calls (record_failure text now identifier t)
run text (succeeds identifier ∷ calls) t = run text calls (record_success text identifier t)
