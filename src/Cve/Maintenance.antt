-- ===== src/Cve/Maintenance.antt =====
-- src/cve/maintenance.ts: one tick of the enrichment maintenance, NVD, then KEV, then EPSS, then the
-- sync of all publications. The bulk adapters of src/cve/maintenance-adapters.ts are HTTP clients and
-- `toUpperCase` goes by Unicode's tables: both are parameters. Durations are not modelled.
pub mod Refresh
pub mod Cursors
pub mod Listing
pub mod Tick
use ai_event_intelligence_ag.Cve.Feeds.{
  Fetched, fetched, thrown, Cvss, NvdNormalized, KevNormalized, EpssNormalized, NvdRefreshRecord,
  MaintenanceAdapters, json_text, json_number, json_cvss, wrapped, nvd_json, kev_json, epss_json,
  Fetched-cases,
}
use Prim.Native.Nat.{Ordering}
use Prim.Native.String as Text
use ai_event_intelligence_ag.Base.{
  ℕ, ◌+◌, ◌-◌, ◌*◌, ◌≡◌, refl, ◌⊎◌, inl, inr, String, Bool, true, false, Option, none, some, List,
  [], ◌∷◌, map, if◌then◌else◌, ◌or_else◌, find, length, str_eq,
}
use ai_event_intelligence_ag.DateText.{to_iso_date, to_iso_string}
use ai_event_intelligence_ag.StableJson.{
  Json, null, bool, num, str, obj, Fields, end, field, stable_stringify, json_eq,
}
use ai_event_intelligence_ag.Cve.Records.{
  SourceName, nvd, kev, epss, SourceStatus, AttemptKind, maintenance_nvd, maintenance_kev,
  maintenance_epss, TickStatus, CveCase, Observation, RefreshState,
}
use ai_event_intelligence_ag.Cve.Store.{
  Db, append_source_observation, ObservationInput, mark_enriched, get_refresh_state,
  upsert_refresh_state,
}
use ai_event_intelligence_ag.Cve.Review.{sync_all_case_publications}
use ai_event_intelligence_ag.Cve.Enrichment.{latest_terminal}

-- `sameNormalizedValue` of maintenance.ts: a missing value is the same as none.
unfoldable pub same_as_stored : Option Json → Json → Bool
same_as_stored none b = false
same_as_stored (some a) b = json_eq (stable_stringify a) (stable_stringify b)

abbrev pub provenance_of : SourceName → String
provenance_of nvd = "cve-maintenance:nvd"
provenance_of kev = "cve-maintenance:kev"
provenance_of epss = "cve-maintenance:epss"

abbrev pub refresh_input : ℕ → SourceName → Json → AttemptKind → ObservationInput
refresh_input case_id source value kind = record {
  case_id = case_id;
  source = source;
  status = SourceStatus.ok;
  normalized_value = some value;
  provenance = some (provenance_of source);
  attempt_kind = kind;
  last_error = none;
}

abbrev pub already_stored : Option Observation → Json → Bool
already_stored none value = false
already_stored (some o) value = same_as_stored o.normalized_value value

-- `persistRefreshObservation`
unfoldable pub persist_refresh : Db → ℕ → SourceName → Json → AttemptKind → Db × Bool
persist_refresh db case_id source value kind =
    if already_stored (latest_terminal db case_id source) value then (db, false) else (
      mark_enriched case_id
          (append_source_observation db (refresh_input case_id source value kind)),
      true,
    )

-- `caseByCve`: the cases by their ids in upper case, as they were listed before the loop.
abbrev pub case_by_cve : (String → String) → List CveCase → String → Option ℕ
case_by_cve upper cases cve_id =
    elim (find (λ (r : CveCase). str_eq (upper r.cve_id) cve_id) cases) [
      | none ↦ none
      | some r ↦ some r.id
    ]

abbrev pub count_if : Bool → ℕ → ℕ
count_if true n = n + 1
count_if false n = n

-- The loop of a source over its catalogue; entries of CVEs that have no case are ignored.
unfoldable pub refresh_entries :
    Db → (String → Option ℕ) → SourceName → AttemptKind → List (String × Json) → ℕ → Db × ℕ
refresh_entries db lookup source kind [] appended = (db, appended)
refresh_entries db lookup source kind ((cve_id, value) ∷ rest) appended = elim (lookup cve_id) [
  | none ↦ refresh_entries db lookup source kind rest appended
  | some case_id ↦
      let (next, wrote) = persist_refresh db case_id source value kind in
      refresh_entries next lookup source kind rest (count_if wrote appended)
]

-- `record.lastModifiedAt && record.lastModifiedAt > maxLastModified`
abbrev pub later_of : Option String → String → String
later_of none max = max
later_of (some t) max = elim (Text.compare t max) [ Ordering.gt ↦ t | _ ↦ max ]

-- The greatest `lastModifiedAt` of the records that have a case, from the cursor on.
unfoldable pub max_last_modified :
    (String → Option ℕ) → (String → String) → List NvdRefreshRecord → String → String
max_last_modified lookup upper [] max = max
max_last_modified lookup upper (r ∷ rest) max =
    max_last_modified lookup upper rest (elim (lookup (upper r.cve_id)) [
      | none ↦ max
      | some case_id ↦ later_of r.last_modified_at max
    ])

pub record SourceOutcome : Type 0 where
  pub source : SourceName
  pub status : TickStatus
  pub cases_observed : ℕ
  pub observations_appended : ℕ
  pub cursor_value : Option String
  pub error : Option String

-- What a source's pass writes of itself, and what it reports.
abbrev pub outcome_row : ℕ → ℕ → SourceOutcome → RefreshState
outcome_row started now o = record {
  source = o.source;
  cursor_value = o.cursor_value;
  last_tick_started_at = some started;
  last_tick_completed_at = some now;
  last_tick_status = some o.status;
  last_tick_cases_observed = o.cases_observed;
  last_tick_observations_appended = o.observations_appended;
  last_error = o.error;
  updated_at = now;
}

unfoldable pub record_outcome : ℕ → Db → SourceOutcome → Db × SourceOutcome
record_outcome started db o = (upsert_refresh_state db (outcome_row started db.now o), o)

abbrev pub pass_ok : SourceName → ℕ → ℕ → Option String → SourceOutcome
pass_ok source observed appended cursor = record {
  source = source;
  status = TickStatus.ok;
  cases_observed = observed;
  observations_appended = appended;
  cursor_value = cursor;
  error = none;
}

-- The catch branch of a fetch that throws: nothing was observed and the cursor stays.
abbrev pub pass_failed : SourceName → Option String → String → SourceOutcome
pass_failed source cursor message = record {
  source = source;
  status = TickStatus.failed;
  cases_observed = 0;
  observations_appended = 0;
  cursor_value = cursor;
  error = some message;
}

-- NVD_SAFETY_BUFFER_MS and NVD_INITIAL_CURSOR
abbrev pub nvd_safety_buffer_ms : ℕ
nvd_safety_buffer_ms = 2 * 60 * 1000

abbrev pub nvd_initial_cursor : String
nvd_initial_cursor = "2020-01-01T00:00:00.000Z"

abbrev pub cursor_of : Option RefreshState → Option String
cursor_of none = none
cursor_of (some s) = s.cursor_value

abbrev pub nvd_cursor : Db → String
nvd_cursor db = cursor_of (get_refresh_state db nvd) or_else nvd_initial_cursor

abbrev pub nvd_entry : (String → String) → NvdRefreshRecord → String × Json
nvd_entry upper r = (upper r.cve_id, nvd_json r.normalized)

-- The try branch of a source: the loop over what was fetched, then the cursor row and the report.
unfoldable pub refresh_pass :
    ℕ
    → Db
    → (String → Option ℕ)
    → SourceName
    → AttemptKind
    → List (String × Json)
    → String
    → Db × SourceOutcome
refresh_pass started db lookup source kind entries cursor =
    let (next, appended) = refresh_entries db lookup source kind entries 0 in
    record_outcome started next (pass_ok source (length entries) appended (some cursor))

-- The date of the first score, or today's.
abbrev pub score_date : Db → List (String × EpssNormalized) → String
score_date db [] = to_iso_date db.now
score_date db ((_, first) ∷ _) = first.date or_else to_iso_date db.now

module _ (adapters : MaintenanceAdapters) (started : ℕ) where
  unfoldable pub nvd_pass : Db → Db × SourceOutcome
  nvd_pass db =
      let upper = adapters.to_upper_case in
      let cursor = nvd_cursor db in
      let lookup = case_by_cve upper db.cases in
      elim (adapters.fetch_modified cursor (to_iso_string (started - nvd_safety_buffer_ms))) [
        | thrown message ↦ record_outcome started db (pass_failed nvd (some cursor) message)
        | fetched records ↦
            refresh_pass started db lookup nvd maintenance_nvd (map (nvd_entry upper) records)
              (max_last_modified lookup upper records cursor)
      ]

  unfoldable pub kev_pass : Db → Db × SourceOutcome
  kev_pass db = elim adapters.fetch_all [
    | thrown message ↦
        record_outcome started db (pass_failed kev (cursor_of (get_refresh_state db kev)) message)
    | fetched catalogue ↦
        refresh_pass started db (case_by_cve adapters.to_upper_case db.cases) kev maintenance_kev
          (map (λ e. (e.0, kev_json e.1)) catalogue) (to_iso_string db.now)
  ]

  unfoldable pub epss_pass : Db → Db × SourceOutcome
  epss_pass db = elim adapters.fetch_daily [
    | thrown message ↦
        record_outcome started db (pass_failed epss (cursor_of (get_refresh_state db epss)) message)
    | fetched scores ↦
        refresh_pass started db (case_by_cve adapters.to_upper_case db.cases) epss maintenance_epss
          (map (λ e. (e.0, epss_json e.1)) scores) (score_date db scores)
  ]

abbrev pub succeeded : TickStatus → Bool
succeeded TickStatus.ok = true
succeeded _ = false

-- After a source's pass: go on if it succeeded, return early if it failed.
abbrev pub go_on : Db × SourceOutcome → (Db → Db × List SourceOutcome) → Db × List SourceOutcome
go_on (db, o) next = elim (succeeded o.status) [
  | true ↦ ((next db).0, o ∷ (next db).1)
  | false ↦ (db, o ∷ [])
]

-- `runMaintenanceTick`: a failed source ends the tick, before the sources after it and the sync.
unfoldable pub run_maintenance_tick : Db → MaintenanceAdapters → Db × List SourceOutcome
run_maintenance_tick db adapters =
    let started = db.now in
    go_on (nvd_pass adapters started db) (λ db₁. go_on (kev_pass adapters started db₁) (λ db₂.
      go_on (epss_pass adapters started db₂) (λ db₃. ((sync_all_case_publications db₃).0, []))))
