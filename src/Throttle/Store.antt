-- ===== src/Throttle/Store.antt =====
-- A dictionary of deques, and the unpruned logs that it stands for.
use text.Mathlib.Text.{◌==◌ as str_eq}
use text.Mathlib.TextEquality.{eq_iff}
use opsflow.Prelude.{
  ℕ, ◌≤◌, ◌≡◌, subst, Bool-cases, inl, inr, String, List, [], ◌∷◌, ◌++◌, length, arith,
  if◌then◌else◌,
}
use opsflow.Dict.{Dict, insert, pop, lookup_or, lookup-insert, lookup-pop}
use opsflow.Throttle.Window.{
  prune, cutoff, recent, Agrees, Agrees-empty, Agrees-later, Agrees-prune, Agrees-append,
  length_active,
}

abbrev pub Store : Type 0
Store = Dict (List ℕ)

abbrev pub entries : String → Store → List ℕ
entries k storage = lookup_or k [] storage

-- `_get_active_entries`: the entries that are returned, which the storage holds under the key.
unfoldable pub get_active_entries : Store → String → ℕ → ℕ → List ℕ × Store
get_active_entries storage key now window =
    let active = prune (cutoff now window) (entries key storage) in
    (active, insert key active storage)

-- `entries.append(now)` on the deque that the storage holds under the key
unfoldable pub append_entry : String → ℕ → Store → Store
append_entry key now storage = insert key (entries key storage ++ now ∷ []) storage

-- One log of times for each key.
abbrev pub Logs : Type 0
Logs = String → List ℕ

abbrev pub log_entry : String → ℕ → Logs → Logs
log_entry key now logs j = if str_eq key j then logs j ++ now ∷ [] else logs j

abbrev pub clear_log : String → Logs → Logs
clear_log key logs j = if str_eq key j then [] else logs j

abbrev pub StandsFor : ℕ → ℕ → Logs → Store → Type 0
StandsFor window last logs storage = (k : String) → Agrees window last (logs k) (entries k storage)

pub entries-insert :
    (k j : String) (v : List ℕ) (storage : Store)
    → entries j (insert k v storage) ≡ (if str_eq k j then v else entries j storage)
entries-insert k j v storage = ground (arith, lookup-insert k j v storage)

pub entries-insert_self :
    (k : String) (v : List ℕ) (storage : Store) → entries k (insert k v storage) ≡ v
entries-insert_self k v storage = ground (arith, lookup-insert k k v storage, eq_iff k k)

module _ (window last now : ℕ) (key : String) (logs : Logs) (storage : Store) (later : last ≤ now)
    (s : StandsFor window last logs storage) where
  abbrev active : List ℕ × Store
  active = get_active_entries storage key now window

  pub length-get_active_entries : length active.0 ≡ recent window now (logs key)
  unfolding get_active_entries
  length-get_active_entries =
      length_active window last now (logs key) (entries key storage) later (s key)

  pub get_active_entries-StandsFor : StandsFor window now logs active.1
  unfolding get_active_entries
  get_active_entries-StandsFor j = elim (Bool-cases (str_eq key j)) [
    | inl same ↦
        let e : key ≡ j = (eq_iff key j).0 same in
        rw (entries-insert, same)
          (subst
            (λ (k : String).
              Agrees window now (logs k) (prune (cutoff now window) (entries key storage)))
            e (Agrees-prune window last now (logs key) (entries key storage) later (s key)))
    | inr other ↦
        rw (entries-insert, other)
          (Agrees-later window last now (logs j) (entries j storage) later (s j))
  ]

  pub append_entry-StandsFor :
      StandsFor window now (log_entry key now logs) (append_entry key now storage)
  unfolding append_entry
  append_entry-StandsFor j = elim (Bool-cases (str_eq key j)) [
    | inl same ↦
        let e : key ≡ j = (eq_iff key j).0 same in
        rw (entries-insert, same)
          (subst
            (λ (k : String).
              Agrees window now (logs k ++ now ∷ []) (entries key storage ++ now ∷ []))
            e (Agrees-append window last now (logs key) (entries key storage) later (s key)))
    | inr other ↦
        rw (entries-insert, other)
          (Agrees-later window last now (logs j) (entries j storage) later (s j))
  ]

entries-pop :
    (k j : String) (storage : Store)
    → entries j (pop k storage) ≡ (if str_eq k j then [] else entries j storage)
entries-pop k j storage = ground (arith, lookup-pop k j storage)

pub pop-StandsFor :
    (window last : ℕ) (key : String) (logs : Logs) (storage : Store)
    → StandsFor window last logs storage
    → StandsFor window last (clear_log key logs) (pop key storage)
pop-StandsFor window last key logs storage s j = elim (Bool-cases (str_eq key j)) [
  | inl same ↦ rw (entries-pop, same) (Agrees-empty window last)
  | inr other ↦ rw (entries-pop, other) (s j)
]

pub StandsFor-later :
    (window last now : ℕ) (logs : Logs) (storage : Store)
    → last ≤ now
    → StandsFor window last logs storage
    → StandsFor window now logs storage
StandsFor-later window last now logs storage later s j =
    Agrees-later window last now (logs j) (entries j storage) later (s j)
