-- ===== src/Throttle/Reset.antt =====
-- backend/app/core/password_reset_throttle.py: `InMemoryPasswordResetThrottle`. The method holds the
-- lock for its whole effect, so it is one step; the clock's reading is an argument.
pub mod Bounds
pub mod Waiting
pub mod RetryAfter
use Prim.Native.Nat.{◌/◌}
use text.Mathlib.Text.{◌==◌ as str_eq}
use opsflow.Prelude.{
  ℕ, suc, ◌+◌, ◌*◌, Bool, true, false, ◌&&◌, ◌||◌, String, Option, none, some, List, [], ◌∷◌, ◌++◌,
  length, Result, ok, err, second, leb, if◌then◌else◌,
}
use opsflow.Prelude.Int.{ℤ, pos, negsuc, sub_ℕ, ◌-ℤ◌, ltb_ℤ, max_ℤ}
use opsflow.Throttle.Keys.{TextRuntime, normalized}
use opsflow.Throttle.Store.{Store, get_active_entries, append_entry}

pub data BlockReason : Type 0 where
  ip account ip_and_account : BlockReason

pub record PasswordResetThrottleDecision : Type 0 where
  pub allowed : Bool
  pub blocked_by : Option BlockReason
  pub retry_after_seconds : Option ℤ

pub data ConfigError : Type 0 where
  no_secret bad_ip_max_requests bad_ip_window bad_account_max_requests bad_account_window :
      ConfigError

pub record ResetThrottle : Type 0 where
  pub secret_key : String
  pub ip_max_requests : ℕ
  pub ip_window_seconds : ℕ
  pub account_max_requests : ℕ
  pub account_window_seconds : ℕ
  pub ip_requests : Store
  pub account_requests : Store

unfoldable pub new : String → ℕ → ℕ → ℕ → ℕ → Result ConfigError ResetThrottle
new secret ip_max ip_window account_max account_window =
    if str_eq secret ""
    then err no_secret
    else if leb ip_max 0
    then err bad_ip_max_requests
    else if leb ip_window 0
    then err bad_ip_window
    else if leb account_max 0
    then err bad_account_max_requests
    else if leb account_window 0
    then err bad_account_window
    else ok (record {
      secret_key = secret;
      ip_max_requests = ip_max;
      ip_window_seconds = ip_window;
      account_max_requests = account_max;
      account_window_seconds = account_window;
      ip_requests = [];
      account_requests = [];
    })

abbrev pub ip_window : ResetThrottle → ℕ
ip_window t = t.ip_window_seconds * second

abbrev pub account_window : ResetThrottle → ℕ
account_window t = t.account_window_seconds * second

-- `_normalize_client_address`
unfoldable pub ip_key : TextRuntime → String → String
ip_key text client_address =
    let address = normalized text client_address in if str_eq address "" then "unknown" else address

-- `_account_key`
unfoldable pub account_key : TextRuntime → ResetThrottle → String → String
account_key text t account_identifier =
    text.hmac_sha256 t.secret_key (normalized text account_identifier)

unfoldable pub blocked_by : Bool → Bool → BlockReason
blocked_by ip_blocked account_blocked =
    if ip_blocked && account_blocked then ip_and_account else if ip_blocked then ip else account

-- `(bucket[0] + window) - now`, of a bucket that blocks and is not empty.
unfoldable pub remaining_window : Bool → List ℕ → ℕ → ℕ → List ℤ
remaining_window true (first ∷ _) window now = (pos (first + window) -ℤ pos now) ∷ []
remaining_window _ _ _ _ = []

-- `int(x)` of a number of seconds that is given in nanoseconds: towards zero.
abbrev pub whole_seconds : ℤ → ℤ
whole_seconds (pos n) = pos (n / second)
whole_seconds (negsuc n) = sub_ℕ 0 (suc n / second)

abbrev pub in_nanoseconds : ℤ → ℤ
in_nanoseconds (pos n) = pos (n * second)
in_nanoseconds (negsuc n) = sub_ℕ 0 (suc n * second)

abbrev pub one_more : ℤ → ℤ
one_more (pos n) = pos (n + 1)
one_more (negsuc n) = sub_ℕ 0 n

-- The end of `_retry_after`: whole seconds, rounded up, and at least one.
unfoldable pub rounded_up : ℤ → ℤ
rounded_up longest_remaining =
    let whole = whole_seconds longest_remaining in
    max_ℤ (pos 1) (if ltb_ℤ (in_nanoseconds whole) longest_remaining then one_more whole else whole)

unfoldable pub longest : List ℤ → ℤ
longest [] = pos 0
longest (x ∷ []) = x
longest (x ∷ y ∷ xs) = max_ℤ x (longest (y ∷ xs))

unfoldable pub retry_after_of : List ℤ → ℤ
unfolding rounded_up longest
retry_after_of [] = pos 1
retry_after_of (x ∷ xs) = rounded_up (longest (x ∷ xs))

unfoldable pub retry_after : ResetThrottle → ℕ → List ℕ → List ℕ → Bool → Bool → ℤ
unfolding retry_after_of remaining_window
retry_after t now ip_bucket account_bucket ip_blocked account_blocked = retry_after_of (
    remaining_window ip_blocked ip_bucket (ip_window t) now
    ++ remaining_window account_blocked account_bucket (account_window t) now)

abbrev pub allow : PasswordResetThrottleDecision
allow = record { allowed = true; blocked_by = none; retry_after_seconds = none }

-- The part of `check_and_record` after the two buckets were pruned: `storage` is the throttle that
-- holds them.
unfoldable pub decide :
    ℕ
    → String
    → String
    → List ℕ
    → List ℕ
    → ResetThrottle
    → PasswordResetThrottleDecision × ResetThrottle
decide now ip_key account_key ip_bucket account_bucket t =
    let ip_blocked = leb t.ip_max_requests (length ip_bucket) in
    let account_blocked = leb t.account_max_requests (length account_bucket) in
    if ip_blocked || account_blocked
    then (
      record {
        allowed = false;
        blocked_by = some (blocked_by ip_blocked account_blocked);
        retry_after_seconds =
            some (retry_after t now ip_bucket account_bucket ip_blocked account_blocked);
      },
      t,
    )
    else (
      allow,
      record t {
        ip_requests = append_entry ip_key now t.ip_requests;
        account_requests = append_entry account_key now t.account_requests;
      },
    )

unfoldable pub check_and_record :
    TextRuntime
    → ℕ
    → String
    → String
    → ResetThrottle
    → PasswordResetThrottleDecision × ResetThrottle
check_and_record text now client_address account_identifier t =
    let address = ip_key text client_address in
    let identifier = account_key text t account_identifier in
    let (ip_bucket, ip_storage) = get_active_entries t.ip_requests address now (ip_window t) in
    let (account_bucket, account_storage) =
      get_active_entries t.account_requests identifier now (account_window t) in
    decide now address identifier ip_bucket account_bucket
      (record t { ip_requests = ip_storage; account_requests = account_storage })
