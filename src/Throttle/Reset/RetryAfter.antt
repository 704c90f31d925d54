-- ===== src/Throttle/Reset/RetryAfter.antt =====
-- The retry-after time of a denied password-reset request is exact.
use Prim.Native.Nat.{max}
use mathlib.Core.Path.{ap₂}
use opsflow.Prelude.{
  ℕ, ◌+◌, ◌-◌, ◌*◌, ◌≤◌, ◌<◌, ◌≡◌, refl, ◌∙◌, ap, true, false, ◌||◌, String, some, List, ◌++◌,
  length, leb, second, arith,
}
use opsflow.Prelude.Int.{ℤ, pos}
use opsflow.Throttle.Keys.{TextRuntime}
use opsflow.Throttle.Window.{prune, cutoff, length-prune-le}
use opsflow.Throttle.Store.{entries, get_active_entries, entries-insert_self}
use opsflow.Throttle.Reset.{
  ResetThrottle, PasswordResetThrottleDecision, ip_key, account_key, ip_window, account_window,
  rounded_up, retry_after_of, retry_after, decide, check_and_record,
}
use opsflow.Throttle.Reset.Bounds.{IsValid}
use opsflow.Throttle.Reset.Waiting.{
  free_at, blocked_until, IsActive, prune-IsActive, remaining_window_lem, retry_after_of-waits,
  rounded_up_pos, blocked_now, at_most, at_most-le,
}

module _ (text : TextRuntime) (address identifier : String) where
  abbrev pub bucket_of_ip : ℕ → ResetThrottle → List ℕ
  bucket_of_ip now t = (get_active_entries t.ip_requests (ip_key text address) now (ip_window t)).0

  abbrev pub bucket_of_account : ℕ → ResetThrottle → List ℕ
  bucket_of_account now t =
      (get_active_entries t.account_requests (account_key text t identifier) now
        (account_window t)).0

  abbrev pruned : ℕ → ResetThrottle → ResetThrottle
  pruned now t = record t {
    ip_requests = (get_active_entries t.ip_requests (ip_key text address) now (ip_window t)).1;
    account_requests =
        (get_active_entries t.account_requests (account_key text t identifier) now
          (account_window t)).1;
  }

  abbrev answer : ℕ → ResetThrottle → PasswordResetThrottleDecision × ResetThrottle
  answer now t = check_and_record text now address identifier t

  -- The time from which both buckets of the request let one through.
  abbrev both_free_at : ℕ → ResetThrottle → ℕ
  both_free_at now t =
      max (free_at t.ip_max_requests (ip_window t) (bucket_of_ip now t))
        (free_at t.account_max_requests (account_window t) (bucket_of_account now t))

  module _ (last now : ℕ) (t : ResetThrottle) (later : last ≤ now) (v : IsValid last t) where
    ip-IsActive : IsActive (ip_window t) now (bucket_of_ip now t)
    unfolding get_active_entries
    ip-IsActive = prune-IsActive (ip_window t) now _ _ refl

    account-IsActive : IsActive (account_window t) now (bucket_of_account now t)
    unfolding get_active_entries
    account-IsActive = prune-IsActive (account_window t) now _ _ refl

    allowed_now : (answer now t).0.allowed ≡ leb (both_free_at now t) now
    unfolding check_and_record decide
    allowed_now = ground (
      arith,
      blocked_now t.ip_max_requests (ip_window t) now (bucket_of_ip now t) v.ip_limit_pos
          ip-IsActive,
      blocked_now t.account_max_requests (account_window t) now (bucket_of_account now t)
          v.account_limit_pos account-IsActive,
    )

    denied_state : (answer now t).0.allowed ≡ false → (answer now t).1 ≡ pruned now t
    unfolding check_and_record decide
    denied_state d = ground arith

    denied_after : (answer now t).0.allowed ≡ false → now < both_free_at now t
    denied_after d = ground (arith, allowed_now)

    denied_test :
        (answer now t).0.allowed ≡ false
        → (leb t.ip_max_requests (length (bucket_of_ip now t))
            || leb t.account_max_requests (length (bucket_of_account now t)))
          ≡ true
    unfolding check_and_record decide
    denied_test d = ground arith

    denied_retry :
        (answer now t).0.allowed ≡ false
        → (answer now t).0.retry_after_seconds
          ≡ some (
              retry_after t now
                (bucket_of_ip now t)
                (bucket_of_account now t)
                (leb t.ip_max_requests (length (bucket_of_ip now t)))
                (leb t.account_max_requests (length (bucket_of_account now t))))
    unfolding check_and_record decide retry_after
    denied_retry d = rw (denied_test d) refl

    retry_after_lem :
        now < both_free_at now t
        → retry_after t now
            (bucket_of_ip now t)
            (bucket_of_account now t)
            (leb t.ip_max_requests (length (bucket_of_ip now t)))
            (leb t.account_max_requests (length (bucket_of_account now t)))
          ≡ rounded_up (pos (both_free_at now t - now))
    unfolding retry_after
    retry_after_lem h =
        ap₂ (λ (x y : List ℤ). retry_after_of (x ++ y))
          (remaining_window_lem t.ip_max_requests (ip_window t) now (bucket_of_ip now t)
            v.ip_limit_pos ip-IsActive)
          (remaining_window_lem t.account_max_requests (account_window t) now
            (bucket_of_account now t) v.account_limit_pos account-IsActive)
        ∙ retry_after_of-waits now _ _ h

  module _ (last now again : ℕ) (t : ResetThrottle) (later : last ≤ now) (v : IsValid last t)
      (after : now ≤ again) where
    -- The bucket that the request finds again, and prunes again.
    ip_again :
        bucket_of_ip again (pruned now t) ≡ prune (cutoff again (ip_window t)) (bucket_of_ip now t)
    unfolding get_active_entries
    ip_again = rw entries-insert_self refl

    account_again :
        bucket_of_account again (pruned now t)
        ≡ prune (cutoff again (account_window t)) (bucket_of_account now t)
    unfolding get_active_entries account_key
    account_again = rw entries-insert_self refl

    ip_length : length (bucket_of_ip now t) ≤ t.ip_max_requests
    unfolding get_active_entries
    ip_length = omega (
      arith,
      length-prune-le (cutoff now (ip_window t)) (entries (ip_key text address) t.ip_requests),
      (v.ip_buckets (ip_key text address)).1,
    )

    account_length : length (bucket_of_account now t) ≤ t.account_max_requests
    unfolding get_active_entries
    account_length = omega (
      arith,
      length-prune-le (cutoff now (account_window t))
          (entries (account_key text t identifier) t.account_requests),
      (v.account_buckets (account_key text t identifier)).1,
    )

    allowed_again : (answer again (pruned now t)).0.allowed ≡ leb (both_free_at now t) again
    unfolding check_and_record decide account_key
    allowed_again = ground (
      arith,
      ap (λ (l : List ℕ). length l) ip_again,
      ap (λ (l : List ℕ). length l) account_again,
      blocked_until t.ip_max_requests (ip_window t) again (bucket_of_ip now t) v.ip_limit_pos
          ip_length,
      blocked_until t.account_max_requests (account_window t) again (bucket_of_account now t)
          v.account_limit_pos account_length,
    )

  -- A denied request carries a number of seconds, at least one: the same request made again that
  -- long after it or later, with no other request in between, is allowed, and made again a whole
  -- second or more before that time it is denied. The request itself is made at or after the last
  -- one, on a throttle that is valid.
  pub retry_after_exact :
      (last now : ℕ) (t : ResetThrottle)
      → last ≤ now
      → IsValid last t
      → (answer now t).0.allowed ≡ false
      → (r : ℕ) × ((answer now t).0.retry_after_seconds ≡ some (pos r))
        × (1 ≤ r)
        × ((wait : ℕ) → (answer (now + (r * second + wait)) (answer now t).1).0.allowed ≡ true)
        × ((wait : ℕ)
            → (answer (now + at_most (r * second - second) wait) (answer now t).1).0.allowed
              ≡ false)
  retry_after_exact last now t later v d =
      let after = denied_after last now t later v d in
      let (r, rounded, one, enough, least) =
        rounded_up_pos (both_free_at now t - now) (omega arith) in
      (
        r,
        denied_retry last now t later v d
            ∙ ap (λ (x : ℤ). some x) (retry_after_lem last now t later v after ∙ rounded),
        one,
        λ wait. rw (denied_state last now t later v d) (
            allowed_again last now (now + (r * second + wait)) t later v (omega arith)
            ∙ ground arith),
        λ wait.
            let soon = at_most-le (r * second - second) wait in
            rw (denied_state last now t later v d) (
              allowed_again last now (now + at_most (r * second - second) wait) t later v
                (omega arith)
              ∙ ground arith),
      )
