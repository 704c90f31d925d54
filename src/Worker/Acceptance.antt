-- ===== src/Worker/Acceptance.antt =====
-- One task in the table of executions: its record is made once, and is ready for the Incident Service.
use text.Mathlib.Text.{◌==◌ as str_eq}
use text.Mathlib.TextEquality.{eq_iff}
use opsflow.Prelude.{
  ℕ, ◌≡◌, ◌⊎◌, refl, ap, Bool, true, false, String, none, some, [], ◌∷◌, ok, Option-cases, inl, inr,
  arith, Bool-cases,
}
use opsflow.Worker.{Task, TaskItem, Table}
use opsflow.Worker.Store.{
  PutAnswer, applied, failing, get_item, new_item, validate_existing_record,
  accept_incident_processing_task,
}

pub str_eq_refl : (s : String) → str_eq s s ≡ true
str_eq_refl s = (eq_iff s s).1 refl

task_id-get_item :
    (i : String) (table : Table) (item : TaskItem)
    → get_item i table ≡ some item
    → str_eq item.task_id i ≡ true
unfolding get_item
task_id-get_item i [] item h = cc
task_id-get_item i (r ∷ rows) item h = ground (arith, task_id-get_item i rows item)

-- The record of a task: it is there, and agrees with the task.
abbrev pub IsRecorded : Task → String → Table → Type 0
IsRecorded task incident_id table =
    (item : TaskItem) × (get_item task.task_id table ≡ some item)
    × (validate_existing_record item task incident_id ≡ true)

module _ (accepted_at epoch expiration_seconds : ℕ) (put : PutAnswer) (task : Task)
    (incident_id : String) (table table' : Table) where
  pub accept-IsRecorded :
      (b : Bool)
      → accept_incident_processing_task accepted_at epoch expiration_seconds put task incident_id
          table
        ≡ (ok b, table')
      → IsRecorded task incident_id table'
  unfolding accept_incident_processing_task
  accept-IsRecorded b h = by_put put h
    where
      by_put :
          (answer : PutAnswer)
          → accept_incident_processing_task accepted_at epoch expiration_seconds answer task
              incident_id table
            ≡ (ok b, table')
          → IsRecorded task incident_id table'
      by_put failing e = absurd (ground arith)
      by_put (applied expired) e = elim (Option-cases (get_item task.task_id table)) [
        | inl fresh ↦
            let item = new_item accepted_at epoch expiration_seconds task incident_id in
            let s1 = str_eq_refl task.task_id in
            let s2 = str_eq_refl incident_id in
            let s3 = str_eq_refl task.task_type in
            let s4 = str_eq_refl task.idempotency_key in
            let s5 = str_eq_refl task.correlation_id in (item, ground arith, ground arith)
        | inr (item, found) ↦ (item, ground arith, ground arith)
      ]

-- A record is never changed or removed by an acceptance, of its own task or of another.
pub get_item-accept :
    (accepted_at epoch expiration_seconds : ℕ) (put : PutAnswer) (task : Task)
    (incident_id : String) (i : String) (item : TaskItem) (table : Table)
    → get_item i table ≡ some item
    → get_item i
        (accept_incident_processing_task accepted_at epoch expiration_seconds put task incident_id
          table).1
      ≡ some item
unfolding accept_incident_processing_task
get_item-accept accepted_at epoch expiration_seconds failing task incident_id i item table h = h
get_item-accept accepted_at epoch expiration_seconds (applied expired) task incident_id i item table
      h =
    elim (Option-cases (get_item task.task_id table)) [
      | inl fresh ↦
          let other : str_eq task.task_id i ≡ false =
            different (Bool-cases (str_eq task.task_id i)) fresh in
          ground arith
      | inr (existing, found) ↦ ground arith
    ]
  where
    different :
        (str_eq task.task_id i ≡ true) ⊎ (str_eq task.task_id i ≡ false)
        → get_item task.task_id table ≡ none
        → str_eq task.task_id i ≡ false
    different (inr e) fresh = e
    different (inl e) fresh =
        let same = (eq_iff task.task_id i).0 e in
        let clash = ap (λ t. get_item t table) same in absurd (ground arith)

-- A task that is delivered again after its acceptance, under the same key and with the same identity,
-- is accepted as one that is known, and the table stays as it is.
accept-accept :
    (a e s a' e' s' : ℕ) (put : PutAnswer) (task : Task) (incident_id : String) (b : Bool)
    (table table' : Table)
    → accept_incident_processing_task a e s put task incident_id table ≡ (ok b, table')
    → accept_incident_processing_task a' e' s' (applied false) task incident_id table'
      ≡ (ok false, table')
unfolding accept_incident_processing_task
accept-accept a e s a' e' s' put task incident_id b table table' h =
    let (item, found, valid) = accept-IsRecorded a e s put task incident_id table table' b h in
    ground arith
