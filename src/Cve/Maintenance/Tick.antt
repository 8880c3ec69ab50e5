-- ===== src/Cve/Maintenance/Tick.antt =====
-- What `runMaintenanceTick` of src/cve/maintenance.ts leaves cases and cursors at.
use mathlib.Core.Option
use ai_event_intelligence_ag.Base.{
  ℕ, ◌≡◌, refl, ◌∙◌, ◌&&◌, String, Bool, true, false, Option, some, List, [], ◌∷◌, arith, inl, inr,
  Bool-cases, Option-cases, if◌then◌else◌, map, length, ◌-◌,
}
use ai_event_intelligence_ag.DateText.{to_iso_string}
use ai_event_intelligence_ag.StableJson.{Json}
use ai_event_intelligence_ag.Cve.Records.{
  CaseStatus, SourceName, nvd, kev, epss, AttemptKind, maintenance_nvd, maintenance_kev,
  maintenance_epss, source_eq,
}
use ai_event_intelligence_ag.Cve.Store.{
  Db, find_case_by_id, append_source_observation, get_refresh_state, upsert_refresh_state,
}
use ai_event_intelligence_ag.Cve.Review.{sync_all_case_publications}
use ai_event_intelligence_ag.Cve.Review.Publication.{status_of, gate_status, sync_all-IsSettled}
use ai_event_intelligence_ag.Cve.Enrichment.Gate.{status_of-mark_enriched}
use ai_event_intelligence_ag.Cve.Feeds.{
  MaintenanceAdapters, thrown, kev_json, epss_json, Fetched-cases,
}
use ai_event_intelligence_ag.Cve.Maintenance.{
  SourceOutcome, persist_refresh, refresh_entries, count_if, record_outcome, nvd_pass, kev_pass,
  epss_pass, case_by_cve, succeeded, go_on, run_maintenance_tick, outcome_row, nvd_cursor,
  cursor_of, refresh_input, nvd_entry, pass_failed, pass_ok, refresh_pass, score_date,
  nvd_safety_buffer_ms, max_last_modified,
}
use ai_event_intelligence_ag.Cve.Maintenance.Cursors.{
  get_refresh_state-upsert, get_refresh_state-upsert_other, upsert-cases, upsert-observations,
  upsert-review_events,
}

status_of-persist_refresh :
    (db : Db) (k : ℕ) (source : SourceName) (value : Json) (kind : AttemptKind) (c : ℕ)
    → status_of (persist_refresh db k source value kind).0 c ≡ status_of db c
unfolding persist_refresh append_source_observation
status_of-persist_refresh db k source value kind c = ground (
  arith,
  status_of-mark_enriched (append_source_observation db (refresh_input k source value kind)) k c,
)

status_of-refresh_entries :
    (db : Db) (lookup : String → Option ℕ) (source : SourceName) (kind : AttemptKind)
    (entries : List (String × Json)) (n c : ℕ)
    → status_of (refresh_entries db lookup source kind entries n).0 c ≡ status_of db c
unfolding refresh_entries
status_of-refresh_entries db lookup source kind [] n c = refl
status_of-refresh_entries db lookup source kind ((cve_id, value) ∷ rest) n c =
    elim (Option-cases (lookup cve_id)) [
      | inl untracked ↦ ground (arith, status_of-refresh_entries db lookup source kind rest n c)
      | inr (k, tracked) ↦
          let step = persist_refresh db k source value kind in
          ground (
            arith,
            status_of-persist_refresh db k source value kind c,
            status_of-refresh_entries step.0 lookup source kind rest (count_if step.1 n) c,
          )
    ]

status_of-record_outcome :
    (started : ℕ) (db : Db) (o : SourceOutcome) (c : ℕ)
    → status_of (record_outcome started db o).0 c ≡ status_of db c
unfolding record_outcome upsert_refresh_state
status_of-record_outcome started db o c = ground arith

status_of-refresh_pass :
    (started : ℕ) (db : Db) (lookup : String → Option ℕ) (source : SourceName) (kind : AttemptKind)
    (entries : List (String × Json)) (cursor : String) (c : ℕ)
    → status_of (refresh_pass started db lookup source kind entries cursor).0 c ≡ status_of db c
unfolding refresh_pass
status_of-refresh_pass started db lookup source kind entries cursor c =
    let (next, appended) = refresh_entries db lookup source kind entries 0 in
    status_of-record_outcome started next (pass_ok source (length entries) appended (some cursor)) c
    ∙ status_of-refresh_entries db lookup source kind entries 0 c

module _ (adapters : MaintenanceAdapters) (started : ℕ) (db : Db) (c : ℕ) where
  status_of-nvd_pass : status_of (nvd_pass adapters started db).0 c ≡ status_of db c
  unfolding nvd_pass
  status_of-nvd_pass =
      elim (Fetched-cases (
        adapters.fetch_modified (nvd_cursor db) (to_iso_string (started - nvd_safety_buffer_ms)))) [
          | inl (records, got) ↦
              let upper = adapters.to_upper_case in
              let lookup = case_by_cve upper db.cases in
              rw (got, nvd_pass)
                (status_of-refresh_pass started db lookup nvd maintenance_nvd
                  (map (nvd_entry upper) records)
                  (max_last_modified lookup upper records (nvd_cursor db)) c)
          | inr (message, got) ↦
              rw (got, nvd_pass)
                (status_of-record_outcome started db
                  (pass_failed nvd (some (nvd_cursor db)) message) c)
        ]

  status_of-kev_pass : status_of (kev_pass adapters started db).0 c ≡ status_of db c
  unfolding kev_pass
  status_of-kev_pass = elim (Fetched-cases adapters.fetch_all) [
    | inl (catalogue, got) ↦
        rw (got, kev_pass)
          (status_of-refresh_pass started db (case_by_cve adapters.to_upper_case db.cases) kev
            maintenance_kev (map (λ e. (e.0, kev_json e.1)) catalogue) (to_iso_string db.now) c)
    | inr (message, got) ↦
        rw (got, kev_pass)
          (status_of-record_outcome started db
            (pass_failed kev (cursor_of (get_refresh_state db kev)) message) c)
  ]

  status_of-epss_pass : status_of (epss_pass adapters started db).0 c ≡ status_of db c
  unfolding epss_pass
  status_of-epss_pass = elim (Fetched-cases adapters.fetch_daily) [
    | inl (scores, got) ↦
        rw (got, epss_pass)
          (status_of-refresh_pass started db (case_by_cve adapters.to_upper_case db.cases) epss
            maintenance_epss (map (λ e. (e.0, epss_json e.1)) scores) (score_date db scores) c)
    | inr (message, got) ↦
        rw (got, epss_pass)
          (status_of-record_outcome started db
            (pass_failed epss (cursor_of (get_refresh_state db epss)) message) c)
  ]

-- Every source of the tick succeeded.
abbrev pub completed : List SourceOutcome → Bool
completed [] = true
completed (o ∷ rest) = succeeded o.status && completed rest

-- What is left of the case `c` after a tick, or the rest of one, by whether all its sources succeeded.
abbrev tick_status : Db → ℕ → Db × List SourceOutcome → Option CaseStatus
tick_status before c (after, outcomes) =
    if completed outcomes
    then Option.map (λ _. gate_status after c) (find_case_by_id after c)
    else status_of before c

go_on-tick_status :
    (before : Db) (c : ℕ) (pass : Db × SourceOutcome) (next : Db → Db × List SourceOutcome)
    → status_of pass.0 c ≡ status_of before c
    → status_of (next pass.0).0 c ≡ tick_status pass.0 c (next pass.0)
    → status_of (go_on pass next).0 c ≡ tick_status before c (go_on pass next)
go_on-tick_status before c (db, o) next kept rest = elim (Bool-cases (succeeded o.status)) [
  | inl went ↦ ground (arith, went, kept, rest)
  | inr failed ↦ rw (failed, go_on, completed, failed) kept
]

-- After a tick in which every source succeeded, every case has the status that its observations call
-- for; after a tick in which a source failed, every case has the status that it had before the tick.
pub run_maintenance_tick-status :
    (db : Db) (adapters : MaintenanceAdapters) (c : ℕ)
    → let (after, outcomes) = run_maintenance_tick db adapters in
      status_of after c ≡ (
        if completed outcomes
        then Option.map (λ _. gate_status after c) (find_case_by_id after c)
        else status_of db c)
unfolding run_maintenance_tick
run_maintenance_tick-status db adapters c =
    let started = db.now in
    let first = nvd_pass adapters started db in
    let second = kev_pass adapters started first.0 in
    let third = epss_pass adapters started second.0 in
    let publish : Db → Db × List SourceOutcome = λ d. ((sync_all_case_publications d).0, []) in
    let score : Db → Db × List SourceOutcome = λ d. go_on (epss_pass adapters started d) publish in
    let list : Db → Db × List SourceOutcome = λ d. go_on (kev_pass adapters started d) score in
    go_on-tick_status db c first list (status_of-nvd_pass adapters started db c) (
      go_on-tick_status first.0 c second score (status_of-kev_pass adapters started first.0 c) (
        go_on-tick_status second.0 c third publish (status_of-epss_pass adapters started second.0 c)
          (sync_all-IsSettled third.0 c)))

-- A tick whose NVD fetch throws writes one row: NVD's, with the error and the cursor of before. Cases,
-- observations, journal and the cursors of the other sources stay, since those sources and the sync do
-- not run, and the tick reports the failure of NVD alone.
pub run_maintenance_tick_failed :
    (db : Db) (adapters : MaintenanceAdapters) (message : String) (other : SourceName)
    → adapters.fetch_modified (nvd_cursor db) (to_iso_string (db.now - nvd_safety_buffer_ms))
      ≡ thrown message
    → source_eq nvd other ≡ false
    → let (after, outcomes) = run_maintenance_tick db adapters in
      (after.cases ≡ db.cases)
      × (after.observations ≡ db.observations)
      × (after.review_events ≡ db.review_events)
      × (get_refresh_state after other ≡ get_refresh_state db other)
      × (get_refresh_state after nvd
          ≡ some (outcome_row db.now db.now (pass_failed nvd (some (nvd_cursor db)) message)))
      × (outcomes ≡ pass_failed nvd (some (nvd_cursor db)) message ∷ [])
unfolding run_maintenance_tick nvd_pass record_outcome
run_maintenance_tick_failed db adapters message other failed differs =
    let row = outcome_row db.now db.now (pass_failed nvd (some (nvd_cursor db)) message) in
    rw (failed, nvd_pass)
      (
        upsert-cases db row,
        upsert-observations db row,
        upsert-review_events db row,
        get_refresh_state-upsert_other db row other differs,
        get_refresh_state-upsert db row,
        refl,
      )
