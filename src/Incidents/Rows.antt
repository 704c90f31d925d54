-- ===== src/Incidents/Rows.antt =====
-- Predicates of all rows of the table `incidents`, and what the writes make of them.
use opsflow.Prelude.{ℕ, ◌≡◌, subst, ==_refl, some, [], ◌∷◌, ◌==◌, Bool-cases, inl, inr, arith}
use opsflow.Incidents
use opsflow.Incidents.{Incident, IncidentTable, get_by_id, write}

module _ (P : Incident → Type 0) where
  abbrev pub AllRows : IncidentTable → Type 0
  AllRows [] = Unit
  AllRows (row ∷ rows) = P row × AllRows rows

  pub create-AllRows :
      (incident : Incident) (table : IncidentTable)
      → P incident
      → AllRows table
      → AllRows (Incidents.create incident table)
  unfolding Incidents.create
  create-AllRows incident [] p all = (p, tt)
  create-AllRows incident (row ∷ rows) p (q, all) = (q, create-AllRows incident rows p all)

  pub write-AllRows :
      (incident : Incident) (table : IncidentTable)
      → P incident
      → AllRows table
      → AllRows (write incident table)
  unfolding write
  write-AllRows incident [] p all = tt
  write-AllRows incident (row ∷ rows) p (q, all) = elim (Bool-cases (row.id == incident.id)) [
    | inl e ↦ rw e (p, all)
    | inr e ↦ rw e (q, write-AllRows incident rows p all)
  ]

  pub delete-AllRows :
      (incident_id : ℕ) (table : IncidentTable)
      → AllRows table
      → AllRows (Incidents.delete incident_id table)
  unfolding Incidents.delete
  delete-AllRows incident_id [] all = tt
  delete-AllRows incident_id (row ∷ rows) (q, all) = elim (Bool-cases (row.id == incident_id)) [
    | inl e ↦ rw e all
    | inr e ↦ rw e (q, delete-AllRows incident_id rows all)
  ]

  pub get_by_id-AllRows :
      (incident_id : ℕ) (table : IncidentTable) (row : Incident)
      → AllRows table
      → get_by_id incident_id table ≡ some row
      → P row
  unfolding get_by_id
  get_by_id-AllRows incident_id [] row all h = cc
  get_by_id-AllRows incident_id (r ∷ rows) row (p, all) h =
      elim (Bool-cases (r.id == incident_id)) [
        | inl e ↦ let same : r ≡ row = ground arith in subst P same p
        | inr e ↦ get_by_id-AllRows incident_id rows row all (ground arith)
      ]

pub id-get_by_id :
    (incident_id : ℕ) (table : IncidentTable) (row : Incident)
    → get_by_id incident_id table ≡ some row
    → row.id ≡ incident_id
unfolding get_by_id
id-get_by_id incident_id [] row h = cc
id-get_by_id incident_id (r ∷ rows) row h = ground (arith, id-get_by_id incident_id rows row)

pub get_by_id-write_self :
    (incident old : Incident) (table : IncidentTable)
    → get_by_id incident.id table ≡ some old
    → get_by_id incident.id (write incident table) ≡ some incident
unfolding get_by_id write
get_by_id-write_self incident old [] h = cc
get_by_id-write_self incident old (r ∷ rows) h =
    ground (arith, ==_refl incident.id, get_by_id-write_self incident old rows)

pub AllRows-map :
    (P Q : Incident → Type 0) (table : IncidentTable)
    → ((row : Incident) → P row → Q row)
    → AllRows P table
    → AllRows Q table
AllRows-map P Q [] f all = tt
AllRows-map P Q (row ∷ rows) f (p, all) = (f row p, AllRows-map P Q rows f all)
