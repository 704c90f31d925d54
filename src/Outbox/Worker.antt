-- ===== src/Outbox/Worker.antt =====
-- incident-service/app/workers/incident_outbox_relay.py and incident_task_completion_outbox_relay.py:
-- `relay_one`, one database transaction, and the loop of `main`. What becomes of a send, which rows
-- other relays have locked, and whether the commit succeeds, are arguments; the log is not modelled.
use opsflow.Prelude.{
  ℕ, Bool, true, false, String, Option, none, some, List, [], ◌∷◌, Result, ok, err, if◌then◌else◌,
}
use opsflow.Outbox.{OutboxRow, lock_next_publishable, relay_once}

-- A send to the queue: it is accepted; it is accepted and its answer is lost; it is not accepted.
pub data Send : Type 0 where
  accepted answer_lost not_accepted : String → Send

abbrev pub answer : Send → Result String String
answer (accepted message_id) = ok message_id
answer (answer_lost error) = err error
answer (not_accepted error) = err error

abbrev pub reached : Send → Bool
reached (accepted _) = true
reached (answer_lost _) = true
reached (not_accepted _) = false

pub record Pass : Type 0 where
  pub now : ℕ
  pub finished_at : ℕ
  pub locked : ℕ → Bool
  pub send : Send
  pub commits : Bool

-- The table, and the ids of the rows whose messages the queue has, newest first.
pub record World (M : Type 0) : Type 0 where
  pub table : List (OutboxRow M)
  pub sent : List ℕ

module _ {M : Type 0} (retry : ℕ) where
  abbrev pub noted : Option (OutboxRow M) → Send → List ℕ → List ℕ
  noted none send sent = sent
  noted (some row) send sent = if reached send then row.id ∷ sent else sent

  -- `relay_one`: a transaction that does not commit leaves the table as it was.
  unfoldable pub relay_one : Pass → World M → World M
  relay_one pass w =
      let row = lock_next_publishable pass.now retry pass.locked w.table in
      let (result, table) =
        relay_once pass.now retry pass.finished_at pass.locked (λ _. answer pass.send) w.table in
      record { table = if pass.commits then table else w.table; sent = noted row pass.send w.sent }

  -- The rounds of `main`, in the order of their transactions.
  unfoldable pub relay_all : List Pass → World M → World M
  relay_all [] w = w
  relay_all (pass ∷ passes) w = relay_all passes (relay_one pass w)
