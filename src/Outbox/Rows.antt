-- ===== src/Outbox/Rows.antt =====
-- The rows of an outbox: their keys, the row that a relay locks, and the rows that it leaves alone.
use opsflow.Prelude.{
  ℕ, ◌≡◌, ◌≢◌, refl, subst, ==_refl, eq_of_==, Bool, true, Option, none, some, List, [], ◌∷◌, leb,
  ◌==◌, Bool-cases, inl, inr, arith,
}
use opsflow.Outbox.{OutboxRow, get, modify, is_publishable, lock_next_publishable, earlier}

module _ {M : Type 0} where
  -- The ids of the rows are all different.
  abbrev pub IsKeyed : List (OutboxRow M) → Type 0
  IsKeyed [] = Unit
  IsKeyed (row ∷ rows) = (get row.id rows ≡ none) × IsKeyed rows

  pub id-get :
      (i : ℕ) (table : List (OutboxRow M)) (row : OutboxRow M) → get i table ≡ some row → row.id ≡ i
  unfolding get
  id-get i [] row h = ground arith
  id-get i (r ∷ rows) row h = ground (arith, id-get i rows row)

  get_later :
      (r row : OutboxRow M) (rows : List (OutboxRow M))
      → get r.id rows ≡ none
      → get row.id rows ≡ some row
      → get row.id (r ∷ rows) ≡ some row
  unfolding get
  get_later r row rows n h = elim (Bool-cases (r.id == row.id)) [
    | inl same ↦ let same_id = eq_of_== r.id row.id same in ground arith
    | inr other ↦ rw other h
  ]

  get_first : (r : OutboxRow M) (rows : List (OutboxRow M)) → get r.id (r ∷ rows) ≡ some r
  unfolding get
  get_first r rows = rw (==_refl r.id) refl

  -- What is asked of the row that is locked.
  abbrev pub IsLocked : ℕ → ℕ → (ℕ → Bool) → List (OutboxRow M) → OutboxRow M → Type 0
  IsLocked now retry locked table row =
      (get row.id table ≡ some row) × (is_publishable now retry locked row ≡ true)

  module _ (now retry : ℕ) (locked : ℕ → Bool) where
    earlier-IsLocked :
        (r : OutboxRow M) (rows : List (OutboxRow M)) (best : Option (OutboxRow M))
        → get r.id rows ≡ none
        → is_publishable now retry locked r ≡ true
        → ((row : OutboxRow M) → best ≡ some row → IsLocked now retry locked rows row)
        → IsLocked now retry locked (r ∷ rows) (earlier r best)
    earlier-IsLocked r rows none n free rest = (get_first r rows, free)
    earlier-IsLocked r rows (some b) n free rest =
        elim (Bool-cases (leb r.created_at b.created_at)) [
          | inl e ↦ rw e (get_first r rows, free)
          | inr e ↦ rw e (get_later r b rows n (rest b refl).0, (rest b refl).1)
        ]

    -- The row that is locked is in the table under its id, and is publishable.
    pub lock_next_publishable-IsLocked :
        (table : List (OutboxRow M)) (row : OutboxRow M)
        → IsKeyed table
        → lock_next_publishable now retry locked table ≡ some row
        → IsLocked now retry locked table row
    unfolding lock_next_publishable
    lock_next_publishable-IsLocked [] row k h = ground arith
    lock_next_publishable-IsLocked (r ∷ rows) row (new, k) h =
        elim (Bool-cases (is_publishable now retry locked r)) [
          | inl free ↦
              let best =
                earlier-IsLocked r rows (lock_next_publishable now retry locked rows) new free
                  (λ row' h'. lock_next_publishable-IsLocked rows row' k h') in
              let same : earlier r (lock_next_publishable now retry locked rows) ≡ row =
                ground arith in
              subst (IsLocked now retry locked (r ∷ rows)) same best
          | inr busy ↦
              let rest = lock_next_publishable-IsLocked rows row k (ground arith) in
              (get_later r row rows new rest.0, rest.1)
        ]

  pub get-modify :
      (i j : ℕ) (change : OutboxRow M → OutboxRow M) (table : List (OutboxRow M))
      → ((row : OutboxRow M) → (change row).id ≡ row.id)
      → i ≢ j
      → get i (modify j change table) ≡ get i table
  unfolding get modify
  get-modify i j change [] keeps ne = refl
  get-modify i j change (row ∷ rows) keeps ne =
      ground (arith, keeps row, get-modify i j change rows keeps ne)

  pub get-modify_self :
      (i : ℕ) (change : OutboxRow M → OutboxRow M) (table : List (OutboxRow M)) (row : OutboxRow M)
      → ((r : OutboxRow M) → (change r).id ≡ r.id)
      → get i table ≡ some row
      → get i (modify i change table) ≡ some (change row)
  unfolding get modify
  get-modify_self i change [] row keeps h = ground arith
  get-modify_self i change (r ∷ rows) row keeps h =
      ground (arith, keeps r, keeps row, get-modify_self i change rows row keeps)

  get-modify-none :
      (i j : ℕ) (change : OutboxRow M → OutboxRow M) (table : List (OutboxRow M))
      → ((r : OutboxRow M) → (change r).id ≡ r.id)
      → get i table ≡ none
      → get i (modify j change table) ≡ none
  unfolding get modify
  get-modify-none i j change [] keeps h = refl
  get-modify-none i j change (r ∷ rows) keeps h =
      ground (arith, keeps r, get-modify-none i j change rows keeps)

  pub modify-IsKeyed :
      (i : ℕ) (change : OutboxRow M → OutboxRow M) (table : List (OutboxRow M))
      → ((r : OutboxRow M) → (change r).id ≡ r.id)
      → IsKeyed table
      → IsKeyed (modify i change table)
  unfolding modify
  modify-IsKeyed i change [] keeps k = tt
  modify-IsKeyed i change (r ∷ rows) keeps (new, k) = elim (Bool-cases (r.id == i)) [
    | inl same ↦ rw same (rw (keeps r) new, k)
    | inr other ↦
        rw other
          (get-modify-none r.id i change rows keeps new, modify-IsKeyed i change rows keeps k)
  ]
