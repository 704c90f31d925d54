-- ===== src/Examples/ThrottleRuns.antt =====
-- Runs of the two throttles, with a text runtime that leaves texts as they are.
use opsflow.Prelude.{
  ℕ, ◌+◌, ◌-◌, ◌*◌, ◌≤◌, ◌≡◌, refl, Bool, true, false, String, some, List, [], ◌∷◌, ok, second,
  arith,
}
use opsflow.Prelude.Int.{pos}
use Prim.Native.String.{◌++◌}
use opsflow.Throttle.Keys.{TextRuntime}
use opsflow.Throttle.Window.{Limited}
use opsflow.Throttle.Login.{LoginThrottle, Call, begins, fails, succeeds, run}
use opsflow.Throttle.Login.Log.{InOrder, decisions, nothing_logged}
use opsflow.Throttle.Login.Refines.{run-refines-log, holding}
use opsflow.Throttle.Reset.{ResetThrottle, check_and_record, new}
use opsflow.Throttle.Reset.Bounds.{IsValid, new-IsValid, check_and_record-IsValid}
use opsflow.Throttle.Reset.Waiting.{at_most}
use opsflow.Throttle.Reset.RetryAfter.{retry_after_exact}

abbrev plain : TextRuntime
plain = record {
  strip = λ s. s;
  lower = λ s. s;
  hmac_sha256 = λ secret message. ◌++◌ secret message;
}

abbrev logins : LoginThrottle
logins = record {
  secret_key = "secret";
  ip_max_attempts = 2;
  ip_window_seconds = 60;
  account_max_failures = 2;
  account_window_seconds = 900;
  ip_attempts = [];
  account_failures = [];
}

-- Two failures of one account, a third attempt from the same address, and one a minute later.
abbrev calls : List Call
calls =
    begins 1 "10.0.0.1" "ada"
    ∷ fails 2 "ada"
    ∷ begins 3 "10.0.0.1" "ada"
    ∷ fails 4 "ada"
    ∷ begins 5 "10.0.0.1" "bob"
    ∷ begins (61 * second) "10.0.0.2" "ada"
    ∷ succeeds "ada"
    ∷ []

in_order : InOrder 0 calls
in_order =
    (omega arith, (omega arith, (omega arith, (omega arith, (omega arith, (omega arith, tt))))))

run-refines-log_example :
    (run plain calls (holding logins [] [])).0 ≡ decisions plain logins calls nothing_logged
run-refines-log_example = run-refines-log plain logins calls in_order

abbrev resets : ResetThrottle
resets = record {
  secret_key = "secret";
  ip_max_requests = 1;
  ip_window_seconds = 60;
  account_max_requests = 1;
  account_window_seconds = 900;
  ip_requests = [];
  account_requests = [];
}

resets-IsValid : IsValid 0 resets
unfolding new
resets-IsValid = new-IsValid "secret" 1 60 1 900 refl

-- After one request both limits are reached.
abbrev used : ResetThrottle
used = (check_and_record plain 7 "10.0.0.1" "ada" resets).1

used_blocks : (check_and_record plain (10 * second) "10.0.0.1" "ada" used).0.allowed ≡ false
unfolding check_and_record opsflow.Throttle.Reset.decide opsflow.Throttle.Store.get_active_entries
    opsflow.Throttle.Window.prune opsflow.Dict.lookup opsflow.Throttle.Store.append_entry
    opsflow.Dict.insert opsflow.Throttle.Reset.ip_key opsflow.Throttle.Window.cutoff
    opsflow.Prelude.Int.◌-ℤ◌
used_blocks = refl

retry_after_exact_example :
    (r : ℕ) × ((check_and_record plain (10 * second) "10.0.0.1" "ada" used).0.retry_after_seconds
      ≡ some (pos r))
    × (1 ≤ r)
    × ((wait : ℕ)
        → (check_and_record plain
            (10 * second + (r * second + wait))
            "10.0.0.1"
            "ada"
            (check_and_record plain (10 * second) "10.0.0.1" "ada" used).1).0.allowed
          ≡ true)
    × ((wait : ℕ)
        → (check_and_record plain
            (10 * second + at_most (r * second - second) wait)
            "10.0.0.1"
            "ada"
            (check_and_record plain (10 * second) "10.0.0.1" "ada" used).1).0.allowed
          ≡ false)
retry_after_exact_example =
    retry_after_exact plain "10.0.0.1" "ada" 7 (10 * second) used (omega arith)
      (check_and_record-IsValid plain 0 7 "10.0.0.1" "ada" resets (omega arith) resets-IsValid)
      used_blocks
