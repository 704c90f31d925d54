-- ===== src/Throttle/Reset/Waiting.antt =====
-- How long one bucket of the password-reset throttle makes a request wait, and the rounding of that
-- time to seconds.
use Prim.Native.Nat.{max, ◌/◌}
use opsflow.Prelude.{
  ℕ, ◌+◌, ◌-◌, ◌*◌, ◌≤◌, ◌<◌, ◌≡◌, List, [], ◌∷◌, ◌++◌, length, ltb, leb, second, arith,
  if◌then◌else◌,
}
use opsflow.Prelude.Int.{ℤ, pos, ◌-ℤ◌}
use opsflow.Throttle.Window.{
  prune, cutoff, prune_none, length-prune_first, head_in_window, length-prune-le,
}
use opsflow.Throttle.Reset.{remaining_window, rounded_up, retry_after_of}

-- The time from which a bucket that nobody adds to lets a request through.
abbrev pub free_at : ℕ → ℕ → List ℕ → ℕ
free_at limit window [] = 0
free_at limit window (first ∷ rest) =
    if leb limit (length (first ∷ rest)) then first + window else 0

pub blocked_until :
    (limit window later : ℕ) (bucket : List ℕ)
    → 1 ≤ limit
    → length bucket ≤ limit
    → leb limit (length (prune (cutoff later window) bucket))
      ≡ ltb later (free_at limit window bucket)
blocked_until limit window later [] l h = unfold prune in ground arith
blocked_until limit window later (first ∷ rest) l h = ground (
  arith,
  prune_none window later first rest,
  length-prune_first window later first rest,
  length-prune-le (cutoff later window) (first ∷ rest),
)

-- Nothing of the bucket has left the window.
abbrev pub IsActive : ℕ → ℕ → List ℕ → Type 0
IsActive window now [] = Unit
IsActive window now (first ∷ rest) = now < first + window

pub prune-IsActive :
    (window now : ℕ) (times bucket : List ℕ)
    → prune (cutoff now window) times ≡ bucket
    → IsActive window now bucket
prune-IsActive window now times [] e = tt
prune-IsActive window now times (first ∷ rest) e = head_in_window window now first times rest e

abbrev pub waits : ℕ → ℕ → List ℤ
waits now free = if ltb now free then pos (free - now) ∷ [] else []

pub remaining_window_lem :
    (limit window now : ℕ) (bucket : List ℕ)
    → 1 ≤ limit
    → IsActive window now bucket
    → remaining_window (leb limit (length bucket)) bucket window now
      ≡ waits now (free_at limit window bucket)
unfolding remaining_window ◌-ℤ◌
remaining_window_lem limit window now [] l a = ground arith
remaining_window_lem limit window now (first ∷ rest) l a = ground arith

pub retry_after_of-waits :
    (now a b : ℕ)
    → now < max a b
    → retry_after_of (waits now a ++ waits now b) ≡ rounded_up (pos (max a b - now))
unfolding retry_after_of
retry_after_of-waits now a b h = ground arith

-- The least number of whole seconds, from one on, that is not below a positive length.
pub rounded_up_pos :
    (n : ℕ)
    → 0 < n
    → (r : ℕ) × (rounded_up (pos n) ≡ pos r)
      × (1 ≤ r)
      × (n ≤ r * second)
      × (r * second < n + second)
unfolding rounded_up
rounded_up_pos n h =
    ((n + (second - 1)) / second, ground arith, omega arith, omega arith, omega arith)

pub blocked_now :
    (limit window now : ℕ) (bucket : List ℕ)
    → 1 ≤ limit
    → IsActive window now bucket
    → leb limit (length bucket) ≡ ltb now (free_at limit window bucket)
blocked_now limit window now [] l a = ground arith
blocked_now limit window now (first ∷ rest) l a = ground arith

-- `wait`, and no more than `most`
pub at_most : ℕ → ℕ → ℕ
at_most most wait = if leb wait most then wait else most

pub at_most-le : (most wait : ℕ) → at_most most wait ≤ most
unfolding at_most
at_most-le most wait = ground arith
