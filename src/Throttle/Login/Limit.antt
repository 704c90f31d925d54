-- ===== src/Throttle/Login/Limit.antt =====
-- The rate that the login throttle enforces on each source address.
use text.Mathlib.Text.{◌==◌ as str_eq}
use text.Mathlib.TextEquality.{eq_iff}
use opsflow.Prelude.{
  ℕ, ◌≤◌, ◌≡◌, refl, Bool, true, false, not, ◌&&◌, inl, inr, Bool-cases, String, Option, some, List,
  [], ◌∷◌, leb, arith, if◌then◌else◌,
}
use opsflow.Throttle.Keys.{TextRuntime}
use opsflow.Throttle.Window.{recent, recent-append, Limited}
use opsflow.Throttle.Store.{log_entry}
use opsflow.Throttle.Login.{
  ip, ThrottleReason, LoginThrottle, LoginThrottleDecision, ip_window, account_window, ip_key,
  account_key, Call, begins, fails, succeeds, run,
}
use opsflow.Throttle.Login.Log.{LoginLog, nothing_logged, log_begin, decisions, InOrder}
use opsflow.Throttle.Login.Refines.{holding, run-refines-log}

abbrev pub stopped_by_ip : Option ThrottleReason → Bool
stopped_by_ip (some ip) = true
stopped_by_ip _ = false

-- The times of the attempts that the address key `k` made and that were not stopped for the address.
abbrev pub let_through :
    TextRuntime → LoginThrottle → String → List Call → List LoginThrottleDecision → List ℕ
let_through text t k (begins now address identifier ∷ calls) (d ∷ ds) =
    let rest = let_through text t k calls ds in
    if str_eq (ip_key text t address) k && not (stopped_by_ip d.blocked_by)
    then now ∷ rest
    else rest
let_through text t k (fails now identifier ∷ calls) ds = let_through text t k calls ds
let_through text t k (succeeds identifier ∷ calls) ds = let_through text t k calls ds
let_through text t k _ _ = []

module _ (text : TextRuntime) (t : LoginThrottle) (k : String) where
  -- The times seen and the log of the key count alike.
  abbrev SameCount : List ℕ → LoginLog → Type 0
  SameCount seen l = (n : ℕ) → recent (ip_window t) n seen ≡ recent (ip_window t) n (l.attempts k)

  module _ (now : ℕ) (address : String) (l : LoginLog) (seen : List ℕ) (same : SameCount seen l)
      (mine : str_eq (ip_key text t address) k ≡ true) where
    -- One more attempt of the key is within the limit, and is counted on both sides.
    room_for_one :
        leb t.ip_max_attempts (recent (ip_window t) now (l.attempts (ip_key text t address)))
          ≡ false
        → recent (ip_window t) now (now ∷ seen) ≤ t.ip_max_attempts
    room_for_one room = ground (arith, same now, eq_iff (ip_key text t address) k)

    SameCount-log_entry :
        SameCount
          (now ∷ seen)
          (record l { attempts = log_entry (ip_key text t address) now l.attempts })
    SameCount-log_entry n = ground (
      arith,
      same n,
      eq_iff (ip_key text t address) k,
      recent-append (ip_window t) n now (l.attempts k),
    )

  decisions-Limited :
      (calls : List Call) (l : LoginLog) (seen : List ℕ)
      → SameCount seen l
      → Limited
          (ip_window t)
          t.ip_max_attempts
          seen
          (let_through text t k calls (decisions text t calls l))
  unfolding decisions
  decisions-Limited [] l seen same = tt
  decisions-Limited (begins now address identifier ∷ calls) l seen same =
      elim (Bool-cases (str_eq (ip_key text t address) k)) [
        | inr other ↦ rw other (
            decisions-Limited calls (log_begin text t now address l) seen
              (λ n. ground (arith, same n, eq_iff (ip_key text t address) k)))
        | inl mine ↦
            elim (Bool-cases (
              leb t.ip_max_attempts
                (recent (ip_window t) now (l.attempts (ip_key text t address))))) [
                  | inl full ↦ rw (mine, full) (decisions-Limited calls l seen same)
                  | inr room ↦
                      elim (Bool-cases (
                        leb t.account_max_failures (
                          recent (account_window t) now
                            (l.failures (account_key text t identifier))))) [
                              | inl locked ↦
                                  rw (mine, room, locked)
                                    (
                                      room_for_one now address l seen same mine room,
                                      decisions-Limited calls _ (now ∷ seen)
                                          (SameCount-log_entry now address l seen same mine),
                                    )
                              | inr free ↦
                                  rw (mine, room, free)
                                    (
                                      room_for_one now address l seen same mine room,
                                      decisions-Limited calls _ (now ∷ seen)
                                          (SameCount-log_entry now address l seen same mine),
                                    )
                            ]
                ]
      ]
  decisions-Limited (fails now identifier ∷ calls) l seen same = decisions-Limited calls _ seen same
  decisions-Limited (succeeds identifier ∷ calls) l seen same = decisions-Limited calls _ seen same

  -- For any calls that take the lock in the order of their clock readings, and any address key: with
  -- each attempt that is not stopped for its address, at most `ip_max_attempts` such attempts of
  -- that key lie within the window that ends there.
  pub let_through-Limited :
      (calls : List Call)
      → InOrder 0 calls
      → Limited
          (ip_window t)
          t.ip_max_attempts
          []
          (let_through text t k calls (run text calls (holding t [] [])).0)
  let_through-Limited calls o =
      rw (run-refines-log text t calls o) (decisions-Limited calls nothing_logged [] (λ n. refl))
