-- ===== src/Throttle/Login/Log.antt =====
-- What the login throttle promises: the decisions of a throttle that keeps every time in a log,
-- forgets nothing by itself, and counts the times in the window.
use opsflow.Prelude.{ℕ, ◌≤◌, String, List, [], ◌∷◌, leb, if◌then◌else◌}
use opsflow.Throttle.Keys.{TextRuntime}
use opsflow.Throttle.Window.{recent}
use opsflow.Throttle.Store.{Logs, log_entry, clear_log}
use opsflow.Throttle.Login.{
  ip, account, LoginThrottle, LoginThrottleDecision, ip_window, account_window, allow, block,
  ip_key, account_key, Call, begins, fails, succeeds,
}

-- The counted attempts of each address key, and the failures of each account key since its last
-- success.
pub record LoginLog : Type 0 where
  pub attempts : Logs
  pub failures : Logs

abbrev pub nothing_logged : LoginLog
nothing_logged = record { attempts = λ k. []; failures = λ k. [] }

module _ (text : TextRuntime) (t : LoginThrottle) where
  abbrev pub decide : ℕ → String → String → LoginLog → LoginThrottleDecision
  decide now address identifier l =
      if leb t.ip_max_attempts (recent (ip_window t) now (l.attempts (ip_key text t address)))
      then block ip
      else if leb t.account_max_failures
          (recent (account_window t) now (l.failures (account_key text t identifier)))
      then block account
      else allow

  abbrev pub log_begin : ℕ → String → LoginLog → LoginLog
  log_begin now address l =
      let key = ip_key text t address in
      if leb t.ip_max_attempts (recent (ip_window t) now (l.attempts key))
      then l
      else record l { attempts = log_entry key now l.attempts }

  -- The decisions that the log gives for a sequence of calls.
  unfoldable pub decisions : List Call → LoginLog → List LoginThrottleDecision
  decisions [] l = []
  decisions (begins now address identifier ∷ calls) l =
      decide now address identifier l ∷ decisions calls (log_begin now address l)
  decisions (fails now identifier ∷ calls) l =
      decisions calls
        (record l { failures = log_entry (account_key text t identifier) now l.failures })
  decisions (succeeds identifier ∷ calls) l =
      decisions calls (record l { failures = clear_log (account_key text t identifier) l.failures })

-- The calls take the lock in the order of their readings of the clock.
abbrev pub InOrder : ℕ → List Call → Type 0
InOrder last [] = Unit
InOrder last (begins now address identifier ∷ calls) = (last ≤ now) × InOrder now calls
InOrder last (fails now identifier ∷ calls) = (last ≤ now) × InOrder now calls
InOrder last (succeeds identifier ∷ calls) = InOrder last calls
