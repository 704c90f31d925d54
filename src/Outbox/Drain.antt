-- ===== src/Outbox/Drain.antt =====
-- A relay that works drains its outbox: with every send accepted, every transaction committed, no
-- other relay, and clocks past the retry delay of every row.
use opsflow.Prelude.{
  ℕ, suc, ◌+◌, ◌≤◌, ◌≡◌, refl, sym, subst, Bool, true, false, String, none, some, List, [], ◌∷◌,
  ◌-◌, ◌==◌, Bool-cases, Option-cases, inl, inr, arith, if◌then◌else◌, length,
}
use opsflow.Outbox.{
  OutboxRow, PublicationStatus, pending, published, is_pending, get, modify, is_publishable,
  lock_next_publishable, marked_published,
}
use opsflow.Outbox.Rows.{IsKeyed, lock_next_publishable-IsLocked}
use opsflow.Outbox.Worker.{accepted, Pass, World, relay_one, relay_all}
use opsflow.Outbox.Delivery.{relay_one-idle, relay_one-busy, relay_one-IsKeyed, contains}
use opsflow.Outbox.Promises.{IsHonest, published_was_sent, publishable_pending}

-- A transaction in which all goes well: from the time `due` on.
pub record IsGood (due : ℕ) (pass : Pass) : Type 0 where
  pub commits : pass.commits ≡ true
  pub free : (i : ℕ) → pass.locked i ≡ false
  pub late : due ≤ pass.now
  pub message_id : String
  pub accepts : pass.send ≡ accepted message_id

abbrev pub AllGood : ℕ → List Pass → Type 0
AllGood due [] = Unit
AllGood due (pass ∷ passes) = IsGood due pass × AllGood due passes

published_of_done : (s : PublicationStatus) → is_pending s ≡ false → s ≡ published
published_of_done pending h = cc
published_of_done published h = refl

module _ {M : Type 0} where
  abbrev pub pending_count : List (OutboxRow M) → ℕ
  pending_count [] = 0
  pending_count (row ∷ rows) =
      if is_pending row.publication_status then pending_count rows + 1 else pending_count rows

  -- At the time `due` every row's retry delay is over.
  abbrev pub AllDue : ℕ → ℕ → List (OutboxRow M) → Type 0
  AllDue retry due [] = Unit
  AllDue retry due (row ∷ rows) =
      (is_pending row.publication_status ≡ true → row.updated_at + retry ≤ due)
      × AllDue retry due rows

  -- Where nothing can be locked, nothing is pending.
  lock_none :
      (now retry due : ℕ) (locked : ℕ → Bool) (table : List (OutboxRow M))
      → ((i : ℕ) → locked i ≡ false)
      → due ≤ now
      → AllDue retry due table
      → lock_next_publishable now retry locked table ≡ none
      → pending_count table ≡ 0
  unfolding lock_next_publishable is_publishable
  lock_none now retry due locked [] free late all_due h = refl
  lock_none now retry due locked (row ∷ rows) free late (is_due, all_due) h =
      elim (Bool-cases (is_pending row.publication_status)) [
        | inl e ↦
            let d = is_due e in
            ground (arith, free row.id, lock_none now retry due locked rows free late all_due)
        | inr e ↦ ground (arith, lock_none now retry due locked rows free late all_due)
      ]

  -- Publishing a pending row leaves one fewer.
  pending_count-modify :
      (at : ℕ) (row : OutboxRow M) (table : List (OutboxRow M))
      → get row.id table ≡ some row
      → is_pending row.publication_status ≡ true
      → suc (pending_count (modify row.id (marked_published at) table)) ≡ pending_count table
  unfolding get modify
  pending_count-modify at row [] h waiting = ground arith
  pending_count-modify at row (r ∷ rows) h waiting =
      ground (arith, pending_count-modify at row rows)

  AllDue-modify :
      (retry due at : ℕ) (i : ℕ) (table : List (OutboxRow M))
      → AllDue retry due table
      → AllDue retry due (modify i (marked_published at) table)
  unfolding modify
  AllDue-modify retry due at i [] all_due = tt
  AllDue-modify retry due at i (r ∷ rows) (is_due, all_due) = elim (Bool-cases (r.id == i)) [
    | inl same ↦ rw same ((λ waits. cc), all_due)
    | inr other ↦ rw other (is_due, AllDue-modify retry due at i rows all_due)
  ]

  none_pending :
      (i : ℕ) (row : OutboxRow M) (table : List (OutboxRow M))
      → pending_count table ≡ 0
      → get i table ≡ some row
      → is_pending row.publication_status ≡ false
  unfolding get
  none_pending i row [] c h = ground arith
  none_pending i row (r ∷ rows) c h = ground (arith, none_pending i row rows)

  -- The table after a good transaction.
  abbrev IsNext : ℕ → ℕ → World M → World M → Type 0
  IsNext retry due w w' =
      (pending_count w'.table ≡ pending_count w.table - 1) × AllDue retry due w'.table

  relay_one_good :
      (retry due : ℕ) (pass : Pass) (w : World M)
      → IsKeyed w.table
      → AllDue retry due w.table
      → IsGood due pass
      → IsNext retry due w (relay_one retry pass w)
  relay_one_good retry due pass w k all_due good =
      elim (Option-cases (lock_next_publishable pass.now retry pass.locked w.table)) [
        | inl idle ↦
            let count =
              lock_none pass.now retry due pass.locked w.table good.free good.late all_due idle in
            subst (IsNext retry due w) (sym (relay_one-idle retry pass w idle))
              (omega (arith, count), all_due)
        | inr (row, h) ↦
            let (found, is_free) =
              lock_next_publishable-IsLocked pass.now retry pass.locked w.table row k h in
            let waiting = publishable_pending pass.now retry pass.locked row is_free in
            let one_less = pending_count-modify pass.finished_at row w.table found waiting in
            subst (IsNext retry due w) (sym (relay_one-busy retry pass w row h found)) (
              rw (good.commits, good.accepts)
                (
                  omega (arith, one_less),
                  AllDue-modify retry due pass.finished_at row.id w.table all_due,
                ))
      ]

  drained :
      (retry due : ℕ) (passes : List Pass) (w : World M)
      → IsKeyed w.table
      → AllDue retry due w.table
      → AllGood due passes
      → pending_count w.table ≤ length passes
      → pending_count (relay_all retry passes w).table ≡ 0
  unfolding relay_all
  drained retry due [] w k all_due good enough = omega arith
  drained retry due (pass ∷ passes) w k all_due (good, rest) enough =
      let (one_less, due') = relay_one_good retry due pass w k all_due good in
      drained retry due passes (relay_one retry pass w) (relay_one-IsKeyed retry pass w k) due' rest
        (omega (arith, one_less))

  -- Where the delay of every pending row is over at the time `due`, and every row that is published has
  -- been sent, as many transactions as there are pending rows, each after `due`, with no row locked by
  -- others, its send accepted and its commit done, leave every row published and its message sent.
  pub relay_drains :
      (retry due : ℕ) (passes : List Pass) (w : World M) (i : ℕ) (row : OutboxRow M)
      → IsKeyed w.table
      → IsHonest w
      → AllDue retry due w.table
      → AllGood due passes
      → pending_count w.table ≤ length passes
      → get i (relay_all retry passes w).table ≡ some row
      → (row.publication_status ≡ published) × (contains i (relay_all retry passes w).sent ≡ true)
  relay_drains retry due passes w i row k honest all_due good enough found =
      let none_left = drained retry due passes w k all_due good enough in
      let done = none_pending i row (relay_all retry passes w).table none_left found in
      (
        published_of_done row.publication_status done,
        published_was_sent retry passes w i row k honest found done,
      )
