-- ===== src/Incidents/Invariants/Acknowledged.antt =====
-- What the processing of a task does to its incident.
use opsflow.Prelude.{
  ℕ, ◌≡◌, sym, ◌∙◌, ap, Option, none, some, arith, Bool-cases, Option-cases, inl, inr,
}
use opsflow.Incidents.{
  Incident, IncidentTable, IncidentStatus, opened, investigating, monitoring, resolved, get_by_id,
  write,
}
use opsflow.Incidents.Rows.{id-get_by_id, get_by_id-write_self}
use opsflow.Incidents.Processing.{IncidentProcessingResult, process, is_changed}
use opsflow.Incidents.Invariants.{processed_incident}

-- The status and the time of acknowledgement that a processing leaves: an open incident comes under
-- investigation, one under investigation is acknowledged once, and any other stays as it is.
abbrev pub acknowledged : ℕ → IncidentStatus → Option ℕ → IncidentStatus × Option ℕ
acknowledged now opened none = (investigating, some now)
acknowledged now opened (some at) = (investigating, some at)
acknowledged now investigating none = (investigating, some now)
acknowledged now investigating (some at) = (investigating, some at)
acknowledged now monitoring at = (monitoring, at)
acknowledged now resolved at = (resolved, at)

-- What a processing that returns has done: the row of the incident has the status and the time of
-- acknowledgement that are due, and the result reports them.
abbrev pub IsAcknowledged :
    ℕ → ℕ → IncidentTable → IncidentProcessingResult → IncidentTable → Type 0
IsAcknowledged now i table r table' =
    (existing : Incident) × (row : Incident) × (get_by_id i table ≡ some existing)
    × (get_by_id i table' ≡ some row)
    × (acknowledged now existing.status existing.acknowledged_at
        ≡ (row.status, row.acknowledged_at))
    × (r.status ≡ row.status)
    × (r.acknowledged_at ≡ row.acknowledged_at)

pub process-IsAcknowledged :
    (a n i : ℕ) (table table' : IncidentTable) (r : IncidentProcessingResult)
    → process a n i table ≡ some (r, table')
    → IsAcknowledged a i table r table'
unfolding process
process-IsAcknowledged a n i table table' r h = elim (Option-cases (get_by_id i table)) [
  | inl missing ↦ absurd (ground arith)
  | inr (existing, found) ↦
      let own = id-get_by_id i table existing found in
      elim (Bool-cases (is_changed a existing.status existing.acknowledged_at)) [
        | inl changes ↦
            let updated = processed_incident a n existing in
            let at_own = ap (λ j. get_by_id j table) own ∙ found in
            let next : table' ≡ write updated table = ground arith in
            let written : get_by_id i table' ≡ some updated =
              ap (get_by_id i) next
              ∙ ap (λ j. get_by_id j (write updated table)) (sym own)
              ∙ get_by_id-write_self updated existing table at_own in
            (existing, updated, found, written, ground arith, ground arith, ground arith)
        | inr same ↦
            let next : table ≡ table' = ground arith in
            (
              existing,
              existing,
              found,
              ap (get_by_id i) (sym next) ∙ found,
              ground arith,
              ground arith,
              ground arith,
            )
      ]
]
