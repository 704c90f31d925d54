-- ===== src/Throttle/Reset/Bounds.antt =====
-- The buckets of the password-reset throttle never hold more than their limits.
use text.Mathlib.Text.{◌==◌ as str_eq}
use opsflow.Prelude.{
  ℕ, ◌≤◌, ◌<◌, ◌≡◌, Bool-cases, ◌||◌, inl, inr, String, ok, [], ◌∷◌, length, length-append, leb,
  arith,
}
use opsflow.Dict.{lookup}
use opsflow.Throttle.Keys.{TextRuntime}
use opsflow.Throttle.Window.{
  cutoff, Within, Within-append, Within-later, Within-prune, length-prune-le,
}
use opsflow.Throttle.Store.{
  Store, entries, get_active_entries, append_entry, entries-insert, entries-insert_self,
}
use opsflow.Throttle.Reset.{
  ResetThrottle, ip_key, account_key, ip_window, account_window, decide, check_and_record, new,
}

-- Each bucket ascends up to the time of the last call, and is within its limit.
abbrev pub IsBounded : ℕ → ℕ → Store → Type 0
IsBounded last limit storage =
    (k : String) → Within 0 last (entries k storage) × (length (entries k storage) ≤ limit)

module _ (last now limit window : ℕ) (key : String) (storage : Store) (later : last ≤ now)
    (b : IsBounded last limit storage) where
  pub get_active_entries-IsBounded :
      IsBounded now limit (get_active_entries storage key now window).1
  unfolding get_active_entries
  get_active_entries-IsBounded j = elim (Bool-cases (str_eq key j)) [
    | inl same ↦
        rw (entries-insert, same)
          (
            Within-later 0 last now _ later
                (Within-prune window now 0 last (entries key storage) (b key).0),
            omega (arith, length-prune-le (cutoff now window) (entries key storage), (b key).1),
          )
    | inr other ↦ rw (entries-insert, other) (Within-later 0 last now _ later (b j).0, (b j).1)
  ]

  pub append_entry-IsBounded :
      length (entries key storage) < limit → IsBounded now limit (append_entry key now storage)
  unfolding append_entry
  append_entry-IsBounded room j = elim (Bool-cases (str_eq key j)) [
    | inl same ↦
        rw (entries-insert, same)
          (
            Within-append 0 last now (entries key storage) later (b key).0,
            omega (arith, length-append (entries key storage) (now ∷ [])),
          )
    | inr other ↦ rw (entries-insert, other) (Within-later 0 last now _ later (b j).0, (b j).1)
  ]

-- The bucket that `get_active_entries` returns is the one that the storage holds afterwards.
pub entries-get_active_entries :
    (storage : Store) (key : String) (now window : ℕ)
    → entries key (get_active_entries storage key now window).1
      ≡ (get_active_entries storage key now window).0
unfolding get_active_entries
entries-get_active_entries storage key now window = entries-insert_self key _ storage

pub record IsValid (last : ℕ) (t : ResetThrottle) : Type 0 where
  pub ip_limit_pos : 1 ≤ t.ip_max_requests
  pub account_limit_pos : 1 ≤ t.account_max_requests
  pub ip_buckets : IsBounded last t.ip_max_requests t.ip_requests
  pub account_buckets : IsBounded last t.account_max_requests t.account_requests

new_fields :
    (secret : String) (a b c d : ℕ) {t : ResetThrottle}
    → new secret a b c d ≡ ok t
    → (1 ≤ t.ip_max_requests)
      × (1 ≤ t.account_max_requests)
      × (t.ip_requests ≡ [])
      × (t.account_requests ≡ [])
unfolding new
new_fields secret a b c d h = ground arith

IsBounded-empty : (limit : ℕ) (storage : Store) → storage ≡ [] → IsBounded 0 limit storage
unfolding lookup
IsBounded-empty limit storage e k = rw e (omega arith, omega arith)

pub new-IsValid :
    (secret : String) (a b c d : ℕ) {t : ResetThrottle} → new secret a b c d ≡ ok t → IsValid 0 t
new-IsValid secret a b c d {t} h =
    let f = new_fields secret a b c d h in
    record {
      ip_limit_pos = f.0;
      account_limit_pos = f.1;
      ip_buckets = IsBounded-empty t.ip_max_requests t.ip_requests f.2;
      account_buckets = IsBounded-empty t.account_max_requests t.account_requests f.3;
    }

module _ (now : ℕ) (address identifier : String) (t : ResetThrottle) (v : IsValid now t) where
  decide-IsValid :
      IsValid now
        (decide now address identifier
          (entries address t.ip_requests)
          (entries identifier t.account_requests)
          t).1
  unfolding decide
  decide-IsValid =
      elim (Bool-cases (
        leb t.ip_max_requests (length (entries address t.ip_requests))
        || leb t.account_max_requests (length (entries identifier t.account_requests)))) [
          | inl blocked ↦ rw blocked v
          | inr free ↦ rw free (record {
            ip_limit_pos = v.ip_limit_pos;
            account_limit_pos = v.account_limit_pos;
            ip_buckets =
                append_entry-IsBounded now now t.ip_max_requests 0 address t.ip_requests
                  (omega arith) v.ip_buckets (ground arith);
            account_buckets =
                append_entry-IsBounded now now t.account_max_requests 0 identifier
                  t.account_requests (omega arith) v.account_buckets (ground arith);
          })
        ]

-- A request, allowed or denied, keeps both limits positive, and every bucket of both kinds in
-- ascending order up to its own time and within its limit.
pub check_and_record-IsValid :
    (text : TextRuntime) (last now : ℕ) (address identifier : String) (t : ResetThrottle)
    → last ≤ now
    → IsValid last t
    → IsValid now (check_and_record text now address identifier t).1
unfolding check_and_record
check_and_record-IsValid text last now address identifier t later v =
    let ik = ip_key text address in
    let ak = account_key text t identifier in
    let pruned : ResetThrottle = record t {
      ip_requests = (get_active_entries t.ip_requests ik now (ip_window t)).1;
      account_requests = (get_active_entries t.account_requests ak now (account_window t)).1;
    } in
    let kept : IsValid now pruned = record {
      ip_limit_pos = v.ip_limit_pos;
      account_limit_pos = v.account_limit_pos;
      ip_buckets =
          get_active_entries-IsBounded last now t.ip_max_requests (ip_window t) ik t.ip_requests
            later v.ip_buckets;
      account_buckets =
          get_active_entries-IsBounded last now t.account_max_requests (account_window t) ak
            t.account_requests later v.account_buckets;
    } in
    rw
      (
        ← entries-get_active_entries t.ip_requests ik now (ip_window t),
        ← entries-get_active_entries t.account_requests ak now (account_window t),
      )
      (decide-IsValid now ik ak pruned kept)
