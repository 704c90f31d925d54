-- ===== src/Incidents/Invariants.antt =====
-- A predicate of rows that holds for the incidents that are created, and is kept by the changes of
-- `update` and `process`, is kept by every request.
pub mod Resolution
pub mod Tasked
pub mod Acknowledged
pub mod Reprocessing
pub mod Stale
use opsflow.Prelude.{
  ℕ, ◌≡◌, refl, sym, subst, String, ◌⊎◌, Bool, true, false, Option, none, some, List, [], ◌∷◌,
  Result, ok, err, ◌==◌, Option-cases, inl, inr, arith, Bool-cases, if◌then◌else◌,
}
use opsflow.Incidents
use opsflow.Incidents.{Incident, IncidentTable, get_by_id, write}
use opsflow.Incidents.Rows.{
  AllRows, create-AllRows, write-AllRows, delete-AllRows, get_by_id-AllRows,
}
use opsflow.Incidents.Service.{
  Database, IncidentError, Catalog, Draw, IncidentCreate, IncidentUpdate, create_incident,
  update_incident, delete_incident, updated_incident, new_incident, get_incident,
  ensure_service_exists, ensure_moved,
}
use opsflow.Incidents.Processing.{
  IncidentProcessingResult, process, process_read, target_status, target_acknowledged_at,
  is_changed,
}
use opsflow.Incidents.Requests.{
  Request, create_request, update_request, delete_request, process_request, committed,
  committed_delete, committed_process, handle, handle_all,
}

-- What `process` writes.
abbrev pub processed_incident : ℕ → ℕ → Incident → Incident
processed_incident acknowledging now existing = record existing {
  status = target_status existing.status;
  acknowledged_at = target_acknowledged_at acknowledging existing.status existing.acknowledged_at;
  updated_at = now;
}

abbrev pub Kept : (Incident → Type 0) → Request → Type 0
Kept P (create_request draw payload correlation_id) = P (new_incident draw payload)
Kept P (update_request resolving now incident_id payload) =
    (existing : Incident) → P existing → P (updated_incident resolving now payload existing)
Kept P (delete_request incident_id) = Unit
Kept P (process_request acknowledging now incident_id) =
    (existing : Incident) → P existing → P (processed_incident acknowledging now existing)

module _ (P : Incident → Type 0) (service_exists : Catalog) (db : Database)
    (all : AllRows P db.incidents) where
  write-kept :
      (updated : Incident) (table : IncidentTable)
      → P updated
      → table ≡ write updated db.incidents
      → AllRows P table
  write-kept updated table p same =
      subst (AllRows P) (sym same) (write-AllRows P updated db.incidents p all)

  create-kept :
      (draw : Draw) (payload : IncidentCreate) (correlation_id : Option String)
      (r : Result IncidentError (Incident × Database))
      → P (new_incident draw payload)
      → create_incident service_exists draw payload correlation_id db ≡ r
      → AllRows P (committed db r).incidents
  unfolding create_incident
  create-kept draw payload correlation_id (err _) p e = all
  create-kept draw payload correlation_id (ok (incident, db')) p e =
      let same : db'.incidents ≡ Incidents.create (new_incident draw payload) db.incidents =
        ground arith in
      subst (AllRows P) (sym same) (create-AllRows P (new_incident draw payload) db.incidents p all)

  update-kept :
      (resolving now incident_id : ℕ) (payload : IncidentUpdate)
      (r : Result IncidentError (Incident × Database))
      → ((existing : Incident) → P existing → P (updated_incident resolving now payload existing))
      → update_incident service_exists resolving now incident_id payload db ≡ r
      → AllRows P (committed db r).incidents
  unfolding update_incident
  update-kept resolving now incident_id payload (err _) p e = all
  update-kept resolving now incident_id payload (ok (incident, db')) p e =
      elim (Option-cases (get_by_id incident_id db.incidents)) [
        | inl missing ↦ absurd (ground arith)
        | inr (existing, found) ↦
            let updated = updated_incident resolving now payload existing in
            let same : db'.incidents ≡ write updated db.incidents = ground arith in
            write-kept updated db'.incidents
              (p existing (get_by_id-AllRows P incident_id db.incidents existing all found)) same
      ]

  delete-kept :
      (incident_id : ℕ) (r : Result IncidentError Database)
      → delete_incident incident_id db ≡ r
      → AllRows P (committed_delete db r).incidents
  unfolding delete_incident
  delete-kept incident_id (err _) e = all
  delete-kept incident_id (ok db') e =
      let same : db'.incidents ≡ Incidents.delete incident_id db.incidents = ground arith in
      subst (AllRows P) (sym same) (delete-AllRows P incident_id db.incidents all)

  process-kept :
      (acknowledging now incident_id : ℕ) (r : Option (IncidentProcessingResult × IncidentTable))
      → ((existing : Incident) → P existing → P (processed_incident acknowledging now existing))
      → process acknowledging now incident_id db.incidents ≡ r
      → AllRows P (committed_process db r).incidents
  unfolding process
  process-kept acknowledging now incident_id none p e = all
  process-kept acknowledging now incident_id (some (result, table)) p e =
      elim (Option-cases (get_by_id incident_id db.incidents)) [
        | inl missing ↦ absurd (ground arith)
        | inr (existing, found) ↦
            elim (Bool-cases (is_changed acknowledging existing.status existing.acknowledged_at)) [
              | inl changed ↦
                  write-kept (processed_incident acknowledging now existing) table
                    (p existing (get_by_id-AllRows P incident_id db.incidents existing all found))
                    (ground arith)
              | inr same ↦
                  let as_before : table ≡ db.incidents = ground arith in
                  subst (AllRows P) (sym as_before) all
            ]
      ]

  pub handle-AllRows :
      (request : Request) → Kept P request → AllRows P (handle service_exists request db).incidents
  unfolding handle
  handle-AllRows (create_request draw payload correlation_id) kept =
      create-kept draw payload correlation_id
        (create_incident service_exists draw payload correlation_id db) kept refl
  handle-AllRows (update_request resolving now incident_id payload) kept =
      update-kept resolving now incident_id payload
        (update_incident service_exists resolving now incident_id payload db) kept refl
  handle-AllRows (delete_request incident_id) kept =
      delete-kept incident_id (delete_incident incident_id db) refl
  handle-AllRows (process_request acknowledging now incident_id) kept =
      process-kept acknowledging now incident_id
        (process acknowledging now incident_id db.incidents) kept refl
