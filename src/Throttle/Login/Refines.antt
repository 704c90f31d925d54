-- ===== src/Throttle/Login/Refines.antt =====
-- The pruned deques of the login throttle give the decisions of the unpruned log.
use mathlib.Core.Path.{ap₂}
use opsflow.Prelude.{
  ℕ, ◌≤◌, ◌≡◌, refl, String, List, [], ◌∷◌, true, false, inl, inr, Bool-cases, length, leb, arith,
}
use opsflow.Dict.{lookup, pop}
use opsflow.Throttle.Keys.{TextRuntime}
use opsflow.Throttle.Window.{recent, Agrees-empty}
use opsflow.Throttle.Store.{
  Store, get_active_entries, append_entry, StandsFor, StandsFor-later, length-get_active_entries,
  get_active_entries-StandsFor, append_entry-StandsFor, pop-StandsFor, log_entry, clear_log,
}
use opsflow.Throttle.Login.{
  LoginThrottle, LoginThrottleDecision, ip_window, account_window, ip_key, account_key,
  begin_attempt, record_failure, record_success, Call, begins, fails, succeeds, run,
}
use opsflow.Throttle.Login.Log.{LoginLog, nothing_logged, decide, log_begin, decisions, InOrder}

-- A throttle with the settings of `t` and these deques.
abbrev pub holding : LoginThrottle → Store → Store → LoginThrottle
holding t attempts failures = record t { ip_attempts = attempts; account_failures = failures }

module _ (text : TextRuntime) (t : LoginThrottle) (last now : ℕ) (address identifier : String)
    (l : LoginLog) (attempts failures : Store) (later : last ≤ now)
    (sa : StandsFor (ip_window t) last l.attempts attempts)
    (sf : StandsFor (account_window t) last l.failures failures) where
  abbrev begun : LoginThrottleDecision × LoginThrottle
  begun = begin_attempt text now address identifier (holding t attempts failures)

  abbrev active_attempts : List ℕ × Store
  active_attempts = get_active_entries attempts (ip_key text t address) now (ip_window t)

  abbrev active_failures : List ℕ × Store
  active_failures =
      get_active_entries failures (account_key text t identifier) now (account_window t)

  attempts_length :
      length active_attempts.0 ≡ recent (ip_window t) now (l.attempts (ip_key text t address))
  attempts_length =
      length-get_active_entries (ip_window t) last now (ip_key text t address) l.attempts attempts
        later sa

  failures_length :
      length active_failures.0
      ≡ recent (account_window t) now (l.failures (account_key text t identifier))
  failures_length =
      length-get_active_entries (account_window t) last now (account_key text t identifier)
        l.failures failures later sf

  decision-begin_attempt : begun.0 ≡ decide text t now address identifier l
  unfolding begin_attempt
  decision-begin_attempt = ground (arith, attempts_length, failures_length)

  -- Either the source address is blocked, or the attempt is counted and the account looked up.
  throttle-begin_attempt :
      (a f : Store) × (begun.1 ≡ holding t a f)
      × StandsFor (ip_window t) now (log_begin text t now address l).attempts a
      × StandsFor (account_window t) now (log_begin text t now address l).failures f
  throttle-begin_attempt = elim (Bool-cases (leb t.ip_max_attempts (length active_attempts.0))) [
    | inl full ↦
        let full' : leb t.ip_max_attempts
              (recent (ip_window t) now (l.attempts (ip_key text t address)))
            ≡ true =
          rw attempts_length at full in
        (
          active_attempts.1,
          failures,
          unfold begin_attempt in ground arith,
          rw full' (
              get_active_entries-StandsFor (ip_window t) last now (ip_key text t address) l.attempts
                attempts later sa),
          rw full' (StandsFor-later (account_window t) last now l.failures failures later sf),
        )
    | inr room ↦
        let room' : leb t.ip_max_attempts
              (recent (ip_window t) now (l.attempts (ip_key text t address)))
            ≡ false =
          rw attempts_length at room in
        (
          append_entry (ip_key text t address) now active_attempts.1,
          active_failures.1,
          unfold begin_attempt in ground arith,
          rw room' (
              append_entry-StandsFor (ip_window t) now now (ip_key text t address) l.attempts
                active_attempts.1 (omega arith)
                (get_active_entries-StandsFor (ip_window t) last now (ip_key text t address)
                  l.attempts attempts later sa)),
          rw room' (
              get_active_entries-StandsFor (account_window t) last now
                (account_key text t identifier) l.failures failures later sf),
        )
  ]

  throttle-record_failure :
      (f : Store) × (record_failure text now identifier (holding t attempts failures)
        ≡ holding t attempts f)
      × StandsFor
          (account_window t)
          now
          (log_entry (account_key text t identifier) now l.failures)
          f
  unfolding record_failure
  throttle-record_failure = (
    append_entry (account_key text t identifier) now active_failures.1,
    refl,
    append_entry-StandsFor (account_window t) now now (account_key text t identifier) l.failures
        active_failures.1 (omega arith)
        (get_active_entries-StandsFor (account_window t) last now (account_key text t identifier)
          l.failures failures later sf),
  )

throttle-record_success :
    (text : TextRuntime) (t : LoginThrottle) (identifier : String) (attempts failures : Store)
    → record_success text identifier (holding t attempts failures)
      ≡ holding t attempts (pop (account_key text t identifier) failures)
unfolding record_success
throttle-record_success text t identifier attempts failures = refl

module _ (text : TextRuntime) (t : LoginThrottle) where
  run-decisions :
      (calls : List Call) (last : ℕ) (l : LoginLog) (attempts failures : Store)
      → StandsFor (ip_window t) last l.attempts attempts
      → StandsFor (account_window t) last l.failures failures
      → InOrder last calls
      → (run text calls (holding t attempts failures)).0 ≡ decisions text t calls l
  unfolding run decisions
  run-decisions [] last l attempts failures sa sf o = refl
  run-decisions (begins now address identifier ∷ calls) last l attempts failures sa sf o =
      let (a, f, e, sa', sf') =
        throttle-begin_attempt text t last now address identifier l attempts failures o.0 sa sf in
      ap₂ ◌∷◌
        (decision-begin_attempt text t last now address identifier l attempts failures o.0 sa sf)
        (rw e (run-decisions calls now (log_begin text t now address l) a f sa' sf' o.1))
  run-decisions (fails now identifier ∷ calls) last l attempts failures sa sf o =
      let (f, e, sf') =
        throttle-record_failure text t last now "" identifier l attempts failures o.0 sa sf in
      rw (e, run)
        (run-decisions calls now
          (record l { failures = log_entry (account_key text t identifier) now l.failures })
          attempts f (StandsFor-later (ip_window t) last now l.attempts attempts o.0 sa) sf' o.1)
  run-decisions (succeeds identifier ∷ calls) last l attempts failures sa sf o =
      rw (throttle-record_success text t identifier attempts failures, run)
        (run-decisions calls last
          (record l { failures = clear_log (account_key text t identifier) l.failures }) attempts
          (pop (account_key text t identifier) failures) sa
          (pop-StandsFor (account_window t) last (account_key text t identifier) l.failures failures
            sf)
          o)

  -- For any calls that take the lock in the order of their clock readings, a throttle that starts
  -- empty gives exactly the decisions of the log that is never pruned.
  pub run-refines-log :
      (calls : List Call)
      → InOrder 0 calls
      → (run text calls (holding t [] [])).0 ≡ decisions text t calls nothing_logged
  unfolding lookup
  run-refines-log calls o =
      run-decisions calls 0 nothing_logged [] [] (λ k. Agrees-empty (ip_window t) 0)
        (λ k. Agrees-empty (account_window t) 0) o
