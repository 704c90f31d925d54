-- ===== src/Outbox/Delivery.antt =====
-- What relays promise, in any order and with any failures: nothing is lost, nothing is marked published
-- that was not sent, and what is marked published is not sent again.
use opsflow.Prelude.{
  ℕ, ◌+◌, ◌≡◌, ◌⊎◌, refl, Bool, false, ◌||◌, none, some, List, [], ◌∷◌, ◌==◌, Bool-cases,
  Option-cases, inl, inr, arith, if◌then◌else◌,
}
use opsflow.Outbox.{
  OutboxRow, get, modify, lock_next_publishable, marked_published, marked_failed, mark_published,
  mark_publish_failed, after_publish, relay_once,
}
use opsflow.Outbox.Rows.{IsKeyed, IsLocked, lock_next_publishable-IsLocked, modify-IsKeyed}
use opsflow.Outbox.Worker.{
  Send, accepted, answer_lost, not_accepted, reached, Pass, World, relay_one,
}

-- The row after a send.
abbrev pub settled : {M : Type 0} → ℕ → Send → OutboxRow M → OutboxRow M
settled at (accepted _) row = marked_published at row
settled at (answer_lost error) row = marked_failed at error row
settled at (not_accepted error) row = marked_failed at error row

module _ {M : Type 0} (retry : ℕ) (pass : Pass) (w : World M) where
  pub relay_one-idle :
      lock_next_publishable pass.now retry pass.locked w.table ≡ none → relay_one retry pass w ≡ w
  unfolding relay_one relay_once
  relay_one-idle h = ground arith

  pub relay_one-busy :
      (row : OutboxRow M)
      → lock_next_publishable pass.now retry pass.locked w.table ≡ some row
      → get row.id w.table ≡ some row
      → relay_one retry pass w ≡ record {
        table =
            if pass.commits
            then modify row.id (settled pass.finished_at pass.send) w.table
            else w.table;
        sent = if reached pass.send then row.id ∷ w.sent else w.sent;
      }
  unfolding relay_one relay_once after_publish mark_published mark_publish_failed
  relay_one-busy row h found = by_send pass.send refl
    where
      by_send :
          (send : Send)
          → pass.send ≡ send
          → relay_one retry pass w ≡ record {
            table =
                if pass.commits
                then modify row.id (settled pass.finished_at pass.send) w.table
                else w.table;
            sent = if reached pass.send then row.id ∷ w.sent else w.sent;
          }
      by_send (accepted m) e = ground arith
      by_send (answer_lost m) e = ground arith
      by_send (not_accepted m) e = ground arith

abbrev pub contains : ℕ → List ℕ → Bool
contains i [] = false
contains i (j ∷ js) = j == i || contains i js

abbrev pub occurrences : ℕ → List ℕ → ℕ
occurrences i [] = 0
occurrences i (j ∷ js) = if j == i then occurrences i js + 1 else occurrences i js

module _ {M : Type 0} where
  pub id-settled : (at : ℕ) (send : Send) (row : OutboxRow M) → (settled at send row).id ≡ row.id
  id-settled at (accepted _) row = refl
  id-settled at (answer_lost _) row = refl
  id-settled at (not_accepted _) row = refl

  -- A relay does nothing, or it settles one row that is locked for it.
  abbrev pub Settles : ℕ → Pass → World M → Type 0
  Settles retry pass w =
      (row : OutboxRow M) × IsLocked pass.now retry pass.locked w.table row
      × (relay_one retry pass w ≡ record {
        table =
            if pass.commits
            then modify row.id (settled pass.finished_at pass.send) w.table
            else w.table;
        sent = if reached pass.send then row.id ∷ w.sent else w.sent;
      })

  pub relay_one-cases :
      (retry : ℕ) (pass : Pass) (w : World M)
      → IsKeyed w.table
      → (relay_one retry pass w ≡ w) ⊎ Settles retry pass w
  relay_one-cases retry pass w k =
      elim (Option-cases (lock_next_publishable pass.now retry pass.locked w.table)) [
        | inl idle ↦ inl (relay_one-idle retry pass w idle)
        | inr (row, h) ↦
            let found = lock_next_publishable-IsLocked pass.now retry pass.locked w.table row k h in
            inr (row, found, relay_one-busy retry pass w row h found.0)
      ]

  pub relay_one-IsKeyed :
      (retry : ℕ) (pass : Pass) (w : World M)
      → IsKeyed w.table
      → IsKeyed (relay_one retry pass w).table
  relay_one-IsKeyed retry pass w k = elim (relay_one-cases retry pass w k) [
    | inl same ↦ rw same k
    | inr (row, found, run) ↦ rw run (elim (Bool-cases pass.commits) [
      | inl e ↦ rw e (
          modify-IsKeyed row.id (settled pass.finished_at pass.send) w.table
            (id-settled pass.finished_at pass.send) k)
      | inr e ↦ rw e k
    ])
  ]
