-- ===== src/Incidents/Invariants/Stale.antt =====
-- An incident that is changed between the reading and the writing of its processing. `process` reads
-- the row without a lock, and `update` of the repository writes every column of what was read.
use opsflow.Prelude.{ℕ, ◌≡◌, refl, true, some, arith}
use opsflow.Incidents.{Incident, IncidentTable, opened, investigating, resolved, get_by_id, write}
use opsflow.Incidents.Rows.{get_by_id-write_self}
use opsflow.Incidents.Processing.{IncidentProcessingResult, process_read}
use opsflow.Incidents.Invariants.{processed_incident}

-- Where a processing has read an open incident, and a request has meanwhile resolved it, the processing
-- ends normally and reports the incident as under investigation; the row is then under investigation,
-- with the time of resolution and the title that were read, so the resolution is lost.
pub stale_processing_undoes :
    (acknowledging now : ℕ) (read current : Incident) (table : IncidentTable)
    → read.status ≡ opened
    → get_by_id read.id table ≡ some current
    → current.status ≡ resolved
    → (result : IncidentProcessingResult) × (table' : IncidentTable) × (row : Incident)
      × (process_read acknowledging now read table ≡ some (result, table'))
      × (get_by_id read.id table' ≡ some row)
      × (result.status ≡ investigating)
      × (row.status ≡ investigating)
      × (row.resolved_at ≡ read.resolved_at)
      × (row.title ≡ read.title)
unfolding process_read
stale_processing_undoes acknowledging now read current table was_open found is_resolved =
    let row = processed_incident acknowledging now read in
    (
      record {
        incident_id = read.id;
        status = investigating;
        changed = true;
        acknowledged_at = row.acknowledged_at;
      },
      write row table,
      row,
      ground arith,
      get_by_id-write_self row current table found,
      refl,
      ground arith,
      refl,
      refl,
    )
