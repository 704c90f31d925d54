-- ===== src/Outbox/Promises.antt =====
-- What becomes of the rows of an outbox in any sequence of transactions of relays.
use opsflow.Prelude.{
  ℕ, ◌≡◌, ◌≢◌, refl, sym, ◌∙◌, subst, ap, ==_refl, eq_of_==, Bool, true, false, Option, none, some,
  List, [], ◌∷◌, ◌==◌, Bool-cases, inl, inr, arith, if◌then◌else◌,
}
use opsflow.Outbox.{
  OutboxRow, is_pending, get, modify, is_publishable, marked_published, marked_failed,
  lock_next_publishable, mark_published, mark_publish_failed, after_publish, relay_once,
}
use opsflow.Outbox.Rows.{IsKeyed, IsLocked, get-modify, get-modify_self}
use opsflow.Outbox.Worker.{
  Send, accepted, answer_lost, not_accepted, reached, Pass, World, relay_one, relay_all,
}
use opsflow.Outbox.Delivery.{
  settled, contains, occurrences, id-settled, relay_one-cases, relay_one-IsKeyed,
}

module _ {M : Type 0} where
  -- Every row that is no longer pending has been sent.
  abbrev pub IsHonest : World M → Type 0
  IsHonest w =
      (i : ℕ) (row : OutboxRow M)
      → get i w.table ≡ some row
      → is_pending row.publication_status ≡ false
      → contains i w.sent ≡ true

  -- Both hold after a settlement.
  module _ (pass : Pass) (w : World M) (row : OutboxRow M) where
    abbrev after : World M
    after = record {
      table =
          if pass.commits
          then modify row.id (settled pass.finished_at pass.send) w.table
          else w.table;
      sent = if reached pass.send then row.id ∷ w.sent else w.sent;
    }

    contains_later : (i : ℕ) → contains i w.sent ≡ true → contains i after.sent ≡ true
    contains_later i h = ground arith

    get-after_other : (i : ℕ) → i ≢ row.id → get i after.table ≡ get i w.table
    get-after_other i ne = elim (Bool-cases pass.commits) [
      | inl e ↦ rw e (
          get-modify i row.id (settled pass.finished_at pass.send) w.table
            (id-settled pass.finished_at pass.send) ne)
      | inr e ↦ rw e refl
    ]

    get-after_self :
        get row.id w.table ≡ some row
        → get row.id after.table
          ≡ some (if pass.commits then settled pass.finished_at pass.send row else row)
    get-after_self found = elim (Bool-cases pass.commits) [
      | inl e ↦ rw e (
          get-modify_self row.id (settled pass.finished_at pass.send) w.table row
            (id-settled pass.finished_at pass.send) found)
      | inr e ↦ rw e found
    ]

  settled_not_pending :
      (at : ℕ) (send : Send) (row : OutboxRow M)
      → is_pending (settled at send row).publication_status ≡ false
      → reached send ≡ true
  settled_not_pending at (accepted _) row h = refl
  settled_not_pending at (answer_lost _) row h = cc
  settled_not_pending at (not_accepted _) row h = cc

  pub publishable_pending :
      (now retry : ℕ) (locked : ℕ → Bool) (row : OutboxRow M)
      → is_publishable now retry locked row ≡ true
      → is_pending row.publication_status ≡ true
  unfolding is_publishable
  publishable_pending now retry locked row h = ground arith

  module _ (retry : ℕ) (pass : Pass) (w : World M) (row : OutboxRow M) where
    after-IsHonest :
        IsLocked pass.now retry pass.locked w.table row → IsHonest w → IsHonest (after pass w row)
    after-IsHonest (found, free) honest i r h done = elim (Bool-cases (i == row.id)) [
      | inl same ↦
          let id_same = eq_of_== i row.id same in
          let at_row = get-after_self pass w row found in
          let waiting = publishable_pending pass.now retry pass.locked row free in
          let sent_now = settled_not_pending pass.finished_at pass.send row in
          let both : some (if pass.commits then settled pass.finished_at pass.send row else row)
              ≡ some r =
            sym at_row ∙ ap (λ j. get j (after pass w row).table) (sym id_same) ∙ h in
          let self = ==_refl row.id in ground arith
      | inr other ↦
          let ne : i ≢ row.id = λ (e : i ≡ row.id). ground (arith, ==_refl row.id) in
          contains_later pass w row i (honest i r (sym (get-after_other pass w row i ne) ∙ h) done)
    ]

  relay_one-IsHonest :
      (retry : ℕ) (pass : Pass) (w : World M)
      → IsKeyed w.table
      → IsHonest w
      → IsHonest (relay_one retry pass w)
  relay_one-IsHonest retry pass w k honest = elim (relay_one-cases retry pass w k) [
    | inl same ↦ subst IsHonest (sym same) honest
    | inr (row, found, run) ↦
        subst IsHonest (sym run) (after-IsHonest retry pass w row found honest)
  ]

  -- A row that is published is sent no more, and stays as it is.
  abbrev pub IsDone : OutboxRow M → ℕ → World M → Type 0
  IsDone row n w = (get row.id w.table ≡ some row) × (occurrences row.id w.sent ≡ n)

  relay_one-IsDone :
      (retry : ℕ) (pass : Pass) (w : World M) (row : OutboxRow M) (n : ℕ)
      → IsKeyed w.table
      → is_pending row.publication_status ≡ false
      → IsDone row n w
      → IsDone row n (relay_one retry pass w)
  relay_one-IsDone retry pass w row n k done (at_row, count) =
      elim (relay_one-cases retry pass w k) [
        | inl same ↦ subst (IsDone row n) (sym same) (at_row, count)
        | inr (other, (found, free), run) ↦
            let waiting = publishable_pending pass.now retry pass.locked other free in
            let different : row.id ≢ other.id =
              λ (same : row.id ≡ other.id). ground (arith, ap (λ i. get i w.table) same) in
            subst (IsDone row n) (sym run)
              (get-after_other pass w other row.id different ∙ at_row, ground arith)
      ]

  relay_all-IsHonest :
      (retry : ℕ) (passes : List Pass) (w : World M)
      → IsKeyed w.table
      → IsHonest w
      → IsHonest (relay_all retry passes w)
  unfolding relay_all
  relay_all-IsHonest retry [] w k honest = honest
  relay_all-IsHonest retry (pass ∷ passes) w k honest =
      relay_all-IsHonest retry passes (relay_one retry pass w) (relay_one-IsKeyed retry pass w k)
        (relay_one-IsHonest retry pass w k honest)

  -- Where every row that is no longer pending has been sent, it is so after every sequence of
  -- transactions, also with answers that are lost and transactions that do not commit.
  pub published_was_sent :
      (retry : ℕ) (passes : List Pass) (w : World M) (i : ℕ) (row : OutboxRow M)
      → IsKeyed w.table
      → IsHonest w
      → get i (relay_all retry passes w).table ≡ some row
      → is_pending row.publication_status ≡ false
      → contains i (relay_all retry passes w).sent ≡ true
  published_was_sent retry passes w i row k honest found done =
      relay_all-IsHonest retry passes w k honest i row found done

  -- A row that is published is left as it is by every sequence of transactions, and its message is not
  -- sent again.
  pub published_is_final :
      (retry : ℕ) (passes : List Pass) (w : World M) (row : OutboxRow M)
      → IsKeyed w.table
      → get row.id w.table ≡ some row
      → is_pending row.publication_status ≡ false
      → (get row.id (relay_all retry passes w).table ≡ some row)
        × (occurrences row.id (relay_all retry passes w).sent ≡ occurrences row.id w.sent)
  unfolding relay_all
  published_is_final retry [] w row k found done = (found, refl)
  published_is_final retry (pass ∷ passes) w row k found done =
      let step =
        relay_one-IsDone retry pass w row (occurrences row.id w.sent) k done (found, refl) in
      let rest =
        published_is_final retry passes (relay_one retry pass w) row
          (relay_one-IsKeyed retry pass w k) step.0 done in
      (rest.0, rest.1 ∙ step.1)

  -- The ids and the messages of the rows.
  abbrev pub contents : List (OutboxRow M) → List (ℕ × M)
  contents [] = []
  contents (row ∷ rows) = (row.id, row.message) ∷ contents rows

  contents-modify :
      (i : ℕ) (change : OutboxRow M → OutboxRow M) (table : List (OutboxRow M))
      → ((row : OutboxRow M) → ((change row).id ≡ row.id) × ((change row).message ≡ row.message))
      → contents (modify i change table) ≡ contents table
  unfolding modify
  contents-modify i change [] keeps = refl
  contents-modify i change (row ∷ rows) keeps =
      ground (arith, keeps row, contents-modify i change rows keeps)

  pub contents-relay_one :
      (retry : ℕ) (pass : Pass) (w : World M)
      → contents (relay_one retry pass w).table ≡ contents w.table
  unfolding relay_one relay_once after_publish mark_published mark_publish_failed
  contents-relay_one retry pass w =
      go (lock_next_publishable pass.now retry pass.locked w.table) pass.send refl refl
    where
      go :
          (locked : Option (OutboxRow M)) (send : Send)
          → lock_next_publishable pass.now retry pass.locked w.table ≡ locked
          → pass.send ≡ send
          → contents (relay_one retry pass w).table ≡ contents w.table
      go none send h e = ground arith
      go (some row) (accepted m) h e = ground (
        arith,
        contents-modify row.id (marked_published pass.finished_at) w.table (λ r. (refl, refl)),
      )
      go (some row) (answer_lost m) h e = ground (
        arith,
        contents-modify row.id (marked_failed pass.finished_at m) w.table (λ r. (refl, refl)),
      )
      go (some row) (not_accepted m) h e = ground (
        arith,
        contents-modify row.id (marked_failed pass.finished_at m) w.table (λ r. (refl, refl)),
      )

  -- No sequence of transactions adds a row, drops one, or changes a message.
  pub contents-relay_all :
      (retry : ℕ) (passes : List Pass) (w : World M)
      → contents (relay_all retry passes w).table ≡ contents w.table
  unfolding relay_all
  contents-relay_all retry [] w = refl
  contents-relay_all retry (pass ∷ passes) w =
      contents-relay_all retry passes (relay_one retry pass w) ∙ contents-relay_one retry pass w
