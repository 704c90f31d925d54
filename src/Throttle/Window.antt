-- ===== src/Throttle/Window.antt =====
-- The sliding window of both throttles: `_prune` on a deque of times, oldest first, and the plain
-- count of a log that is never pruned, which it implements.
use opsflow.Prelude.{
  ℕ, ◌+◌, ◌≤◌, ◌<◌, ◌≡◌, refl, sym, ◌∙◌, List, [], ◌∷◌, ◌++◌, length, ltb, leb, arith,
  if◌then◌else◌,
}
use opsflow.Prelude.Int.{ℤ, pos, ◌-ℤ◌, leb_ℤ}

-- `while entries and entries[0] <= cutoff: entries.popleft()`
unfoldable pub prune : ℤ → List ℕ → List ℕ
prune cutoff [] = []
prune cutoff (e ∷ entries) = if leb_ℤ (pos e) cutoff then prune cutoff entries else e ∷ entries

-- The cutoff of both throttles.
unfoldable pub cutoff : ℕ → ℕ → ℤ
cutoff now window = pos now -ℤ pos window

-- How many of some times lie within a window of that length before `now`.
abbrev pub recent : ℕ → ℕ → List ℕ → ℕ
recent window now [] = 0
recent window now (t ∷ times) =
    if ltb now (t + window) then recent window now times + 1 else recent window now times

-- The times ascend, from `low` to `high`.
abbrev pub Within : ℕ → ℕ → List ℕ → Type 0
Within low high [] = low ≤ high
Within low high (t ∷ times) = (low ≤ t) × Within t high times

leb-cutoff : (e now window : ℕ) → leb_ℤ (pos e) (cutoff now window) ≡ leb (e + window) now
unfolding cutoff ◌-ℤ◌
leb-cutoff e now window = ground arith

pub recent-append :
    (window now t : ℕ) (times : List ℕ)
    → recent window now (times ++ t ∷ [])
      ≡ (if ltb now (t + window) then recent window now times + 1 else recent window now times)
recent-append window now t [] = ground arith
recent-append window now t (u ∷ times) = ground (arith, recent-append window now t times)

pub Within-append :
    (low high now : ℕ) (times : List ℕ)
    → high ≤ now
    → Within low high times
    → Within low now (times ++ now ∷ [])
Within-append low high now [] h w = (omega arith, omega arith)
Within-append low high now (t ∷ times) h w = (w.0, Within-append t high now times h w.1)

pub Within-later :
    (low high now : ℕ) (times : List ℕ) → high ≤ now → Within low high times → Within low now times
Within-later low high now [] h w = omega arith
Within-later low high now (t ∷ times) h w = (w.0, Within-later t high now times h w.1)

Within-lower :
    (low low' high : ℕ) (times : List ℕ)
    → low' ≤ low
    → Within low high times
    → Within low' high times
Within-lower low low' high [] h w = omega arith
Within-lower low low' high (t ∷ times) h w = (omega arith, w.1)

recent_all :
    (window now low high : ℕ) (times : List ℕ)
    → now < low + window
    → Within low high times
    → recent window now times ≡ length times
recent_all window now low high [] h w = refl
recent_all window now low high (t ∷ times) h w =
    ground (arith, recent_all window now t high times (omega arith) w.1)

-- After a prune at `now` the deque is as long as the number of its times in the window.
pub length-prune :
    (window now low high : ℕ) (times : List ℕ)
    → Within low high times
    → length (prune (cutoff now window) times) ≡ recent window now times
unfolding prune
length-prune window now low high [] w = refl
length-prune window now low high (t ∷ times) w = ground (
  arith,
  leb-cutoff t now window,
  length-prune window now t high times w.1,
  recent_all window now t high times,
)

pub recent-prune :
    (window now later : ℕ) (times : List ℕ)
    → now ≤ later
    → recent window later (prune (cutoff now window) times) ≡ recent window later times
unfolding prune
recent-prune window now later [] h = refl
recent-prune window now later (t ∷ times) h =
    ground (arith, leb-cutoff t now window, recent-prune window now later times h)

pub Within-prune :
    (window now low high : ℕ) (times : List ℕ)
    → Within low high times
    → Within low high (prune (cutoff now window) times)
unfolding prune
Within-prune window now low high [] w = w
Within-prune window now low high (t ∷ times) w = ground (
  arith,
  Within-prune window now t high times w.1,
  Within-lower t low high (prune (cutoff now window) times),
)

-- A deque of the throttle stands for a log of the same times that is never pruned: it ascends up to
-- the time of the last call, and from then on both have as many times in the window.
pub record Agrees (window last : ℕ) (log deque : List ℕ) : Type 0 where
  pub within : Within 0 last deque
  pub counts : (now : ℕ) → last ≤ now → recent window now log ≡ recent window now deque

pub Agrees-empty : (window last : ℕ) → Agrees window last [] []
Agrees-empty window last = record { within = omega arith; counts = λ now h. refl }

module _ (window last now : ℕ) (log deque : List ℕ) (later : last ≤ now)
    (a : Agrees window last log deque) where
  pub Agrees-later : Agrees window now log deque
  Agrees-later = record {
    within = Within-later 0 last now deque later a.within;
    counts = λ n h. a.counts n (omega arith);
  }

  pub Agrees-prune : Agrees window now log (prune (cutoff now window) deque)
  Agrees-prune = record {
    within = Within-later 0 last now _ later (Within-prune window now 0 last deque a.within);
    counts = λ n h. a.counts n (omega arith) ∙ sym (recent-prune window now n deque h);
  }

  -- What `len` gives after the prune is the number of logged times in the window.
  pub length_active : length (prune (cutoff now window) deque) ≡ recent window now log
  length_active = length-prune window now 0 last deque a.within ∙ sym (a.counts now later)

  pub Agrees-append : Agrees window now (log ++ now ∷ []) (deque ++ now ∷ [])
  Agrees-append = record {
    within = Within-append 0 last now deque later a.within;
    counts = λ n h.
        ground
          (arith, recent-append window n now log, recent-append window n now deque, a.counts n);
  }

-- Times in the order of their calls, after the times `seen` (newest first): with each of them at
-- most `limit` times lie in the window that ends there.
abbrev pub Limited : ℕ → ℕ → List ℕ → List ℕ → Type 0
Limited window limit seen [] = Unit
Limited window limit seen (t ∷ times) =
    (recent window t (t ∷ seen) ≤ limit) × Limited window limit (t ∷ seen) times

pub length-prune-le : (c : ℤ) (times : List ℕ) → length (prune c times) ≤ length times
unfolding prune
length-prune-le c [] = omega arith
length-prune-le c (t ∷ times) = ground (arith, length-prune-le c times)

-- While the oldest time is in the window a prune drops nothing.
pub prune_none :
    (window now first : ℕ) (times : List ℕ)
    → now < first + window
    → prune (cutoff now window) (first ∷ times) ≡ first ∷ times
unfolding prune
prune_none window now first times h = ground (arith, leb-cutoff first now window)

-- Once it has left the window a prune drops it.
pub length-prune_first :
    (window now first : ℕ) (times : List ℕ)
    → first + window ≤ now
    → length (prune (cutoff now window) (first ∷ times)) ≤ length times
unfolding prune
length-prune_first window now first times h =
    ground (arith, leb-cutoff first now window, length-prune-le (cutoff now window) times)

-- What is left after a prune is in the window.
pub head_in_window :
    (window now first : ℕ) (times rest : List ℕ)
    → prune (cutoff now window) times ≡ first ∷ rest
    → now < first + window
unfolding prune
head_in_window window now first [] rest e = cc
head_in_window window now first (t ∷ times) rest e =
    ground (arith, leb-cutoff t now window, head_in_window window now first times rest)
