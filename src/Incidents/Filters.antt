-- ===== src/Incidents/Filters.antt =====
-- The queries of the table `incidents`. PostgreSQL leaves the order of rows with one time of creation
-- open; here they keep the order of the table. `ilike` is PostgreSQL's, an argument.
use Prim.Native.String.{◌++◌ as str_append}
use text.Mathlib.Text.{◌==◌ as str_eq}
use opsflow.Prelude.{
  ℕ, zero, suc, Bool, true, ◌&&◌, ◌||◌, String, Option, none, some, [], ◌∷◌, leb, ◌==◌,
  if◌then◌else◌,
}
use opsflow.Incidents.{
  Incident, IncidentTable, IncidentSeverity, sev_1, sev_2, sev_3, sev_4, IncidentStatus, opened,
  investigating, monitoring, resolved,
}

abbrev pub severity_number : IncidentSeverity → ℕ
severity_number sev_1 = 1
severity_number sev_2 = 2
severity_number sev_3 = 3
severity_number sev_4 = 4

abbrev pub status_number : IncidentStatus → ℕ
status_number opened = 0
status_number investigating = 1
status_number monitoring = 2
status_number resolved = 3

-- A filter that is not given passes every row.
abbrev pub passes : Option ℕ → ℕ → Bool
passes none n = true
passes (some m) n = n == m

pub record IncidentQuery : Type 0 where
  pub search : Option String
  pub service_id : Option ℕ
  pub severity : Option IncidentSeverity
  pub status : Option IncidentStatus
  pub offset : ℕ
  pub limit : ℕ

pub record TextSearch : Type 0 where
  pub strip : String → String
  -- whether a text is `ILIKE` a pattern
  pub ilike : String → String → Bool

-- An empty search text is no search.
unfoldable pub found_by : TextSearch → Option String → Incident → Bool
found_by text none row = true
found_by text (some search) row =
    let pattern = str_append "%" (str_append (text.strip search) "%") in
    str_eq search ""
    || (text.ilike row.title pattern
        || (text.ilike row.summary pattern || text.ilike row.assignee pattern))

abbrev pub map_option {ℓ κ} : {A : Type ℓ} {B : Type κ} → (A → B) → Option A → Option B
map_option f none = none
map_option f (some a) = some (f a)

unfoldable pub selected : TextSearch → IncidentQuery → Incident → Bool
unfolding found_by
selected text query row =
    found_by text query.search row
    && (passes query.service_id row.service_id
        && (passes (map_option severity_number query.severity) (severity_number row.severity)
            && passes (map_option status_number query.status) (status_number row.status)))

unfoldable pub where_rows : (Incident → Bool) → IncidentTable → IncidentTable
where_rows test [] = []
where_rows test (row ∷ rows) =
    let rest = where_rows test rows in if test row then row ∷ rest else rest

-- `order_by(created_at.desc())`
unfoldable pub insert_by_creation : Incident → IncidentTable → IncidentTable
insert_by_creation row [] = row ∷ []
insert_by_creation row (other ∷ rows) =
    let rest = insert_by_creation row rows in
    if leb other.created_at row.created_at then row ∷ other ∷ rows else other ∷ rest

unfoldable pub newest_first : IncidentTable → IncidentTable
unfolding insert_by_creation
newest_first [] = []
newest_first (row ∷ rows) = insert_by_creation row (newest_first rows)

unfoldable pub skip : ℕ → IncidentTable → IncidentTable
skip zero rows = rows
skip (suc n) [] = []
skip (suc n) (row ∷ rows) = skip n rows

unfoldable pub at_most : ℕ → IncidentTable → IncidentTable
at_most zero rows = []
at_most (suc n) [] = []
at_most (suc n) (row ∷ rows) = row ∷ at_most n rows

-- `list`, and `list_by_service`
unfoldable pub list_incidents : TextSearch → IncidentQuery → IncidentTable → IncidentTable
unfolding selected where_rows newest_first skip at_most
list_incidents text query table =
    at_most query.limit (skip query.offset (newest_first (where_rows (selected text query) table)))

unfoldable pub list_by_service : ℕ → ℕ → ℕ → IncidentTable → IncidentTable
unfolding where_rows newest_first skip at_most
list_by_service service_id offset limit table =
    at_most limit
      (skip offset (newest_first (where_rows (λ row. row.service_id == service_id) table)))
