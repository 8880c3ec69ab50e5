-- ===== src/Cve/System/Ticks.antt =====
-- The writes of src/cve/maintenance.ts keep the cases in step with the journal.
use ai_event_intelligence_ag.Base.{
  ℕ, ◌-◌, String, Option, some, List, [], ◌∷◌, arith, inl, inr, map, length, Bool-cases,
  Option-cases,
}
use ai_event_intelligence_ag.DateText.{to_iso_string}
use ai_event_intelligence_ag.StableJson.{Json}
use ai_event_intelligence_ag.Cve.Records.{
  SourceName, nvd, kev, epss, AttemptKind, maintenance_nvd, maintenance_kev, maintenance_epss,
}
use ai_event_intelligence_ag.Cve.Store.{Db, append_source_observation, get_refresh_state}
use ai_event_intelligence_ag.Cve.Review.{sync_all_case_publications}
use ai_event_intelligence_ag.Cve.Review.Journal.{IsConsistent, mark_enriched-IsConsistent}
use ai_event_intelligence_ag.Cve.Review.Journal.Operations.{sync_all-IsConsistent}
use ai_event_intelligence_ag.Cve.Feeds.{MaintenanceAdapters, Fetched-cases, kev_json, epss_json}
use ai_event_intelligence_ag.Cve.Maintenance.{
  SourceOutcome, persist_refresh, refresh_input, refresh_entries, count_if, record_outcome,
  outcome_row, refresh_pass, nvd_pass, kev_pass, epss_pass, go_on, run_maintenance_tick, succeeded,
  pass_ok, pass_failed, nvd_cursor, nvd_safety_buffer_ms, cursor_of, case_by_cve, nvd_entry,
  max_last_modified, score_date,
}
use ai_event_intelligence_ag.Cve.System.Writes.{append-IsConsistent, upsert_cursor-IsConsistent}

persist_refresh-IsConsistent :
    (db : Db) (k : ℕ) (source : SourceName) (value : Json) (kind : AttemptKind)
    → IsConsistent db
    → IsConsistent (persist_refresh db k source value kind).0
unfolding persist_refresh
persist_refresh-IsConsistent db k source value kind h =
    let written = append_source_observation db (refresh_input k source value kind) in
    ground (
      arith,
      h,
      mark_enriched-IsConsistent written k
          (append-IsConsistent db (refresh_input k source value kind) h),
    )

refresh_entries-IsConsistent :
    (db : Db) (lookup : String → Option ℕ) (source : SourceName) (kind : AttemptKind)
    (entries : List (String × Json)) (n : ℕ)
    → IsConsistent db
    → IsConsistent (refresh_entries db lookup source kind entries n).0
unfolding refresh_entries
refresh_entries-IsConsistent db lookup source kind [] n h = h
refresh_entries-IsConsistent db lookup source kind ((cve_id, value) ∷ rest) n h =
    elim (Option-cases (lookup cve_id)) [
      | inl untracked ↦
          rw (untracked, refresh_entries)
            (refresh_entries-IsConsistent db lookup source kind rest n h)
      | inr (k, tracked) ↦
          let step = persist_refresh db k source value kind in
          rw (tracked, refresh_entries)
            (refresh_entries-IsConsistent step.0 lookup source kind rest (count_if step.1 n)
              (persist_refresh-IsConsistent db k source value kind h))
    ]

record_outcome-IsConsistent :
    (started : ℕ) (db : Db) (o : SourceOutcome)
    → IsConsistent db
    → IsConsistent (record_outcome started db o).0
unfolding record_outcome
record_outcome-IsConsistent started db o h =
    upsert_cursor-IsConsistent db (outcome_row started db.now o) h

refresh_pass-IsConsistent :
    (started : ℕ) (db : Db) (lookup : String → Option ℕ) (source : SourceName) (kind : AttemptKind)
    (entries : List (String × Json)) (cursor : String)
    → IsConsistent db
    → IsConsistent (refresh_pass started db lookup source kind entries cursor).0
unfolding refresh_pass
refresh_pass-IsConsistent started db lookup source kind entries cursor h =
    let (next, appended) = refresh_entries db lookup source kind entries 0 in
    record_outcome-IsConsistent started next
      (pass_ok source (length entries) appended (some cursor))
      (refresh_entries-IsConsistent db lookup source kind entries 0 h)

module _ (adapters : MaintenanceAdapters) (started : ℕ) (db : Db) (h : IsConsistent db) where
  nvd_pass-IsConsistent : IsConsistent (nvd_pass adapters started db).0
  unfolding nvd_pass
  nvd_pass-IsConsistent =
      elim (Fetched-cases (
        adapters.fetch_modified (nvd_cursor db) (to_iso_string (started - nvd_safety_buffer_ms)))) [
          | inl (records, got) ↦
              let upper = adapters.to_upper_case in
              let lookup = case_by_cve upper db.cases in
              rw (got, nvd_pass)
                (refresh_pass-IsConsistent started db lookup nvd maintenance_nvd
                  (map (nvd_entry upper) records)
                  (max_last_modified lookup upper records (nvd_cursor db)) h)
          | inr (message, got) ↦
              rw (got, nvd_pass)
                (record_outcome-IsConsistent started db
                  (pass_failed nvd (some (nvd_cursor db)) message) h)
        ]

  kev_pass-IsConsistent : IsConsistent (kev_pass adapters started db).0
  unfolding kev_pass
  kev_pass-IsConsistent = elim (Fetched-cases adapters.fetch_all) [
    | inl (catalogue, got) ↦
        rw (got, kev_pass)
          (refresh_pass-IsConsistent started db (case_by_cve adapters.to_upper_case db.cases) kev
            maintenance_kev (map (λ e. (e.0, kev_json e.1)) catalogue) (to_iso_string db.now) h)
    | inr (message, got) ↦
        rw (got, kev_pass)
          (record_outcome-IsConsistent started db
            (pass_failed kev (cursor_of (get_refresh_state db kev)) message) h)
  ]

  epss_pass-IsConsistent : IsConsistent (epss_pass adapters started db).0
  unfolding epss_pass
  epss_pass-IsConsistent = elim (Fetched-cases adapters.fetch_daily) [
    | inl (scores, got) ↦
        rw (got, epss_pass)
          (refresh_pass-IsConsistent started db (case_by_cve adapters.to_upper_case db.cases) epss
            maintenance_epss (map (λ e. (e.0, epss_json e.1)) scores) (score_date db scores) h)
    | inr (message, got) ↦
        rw (got, epss_pass)
          (record_outcome-IsConsistent started db
            (pass_failed epss (cursor_of (get_refresh_state db epss)) message) h)
  ]

go_on-IsConsistent :
    (pass : Db × SourceOutcome) (next : Db → Db × List SourceOutcome)
    → IsConsistent pass.0
    → IsConsistent (next pass.0).0
    → IsConsistent (go_on pass next).0
go_on-IsConsistent (db, o) next kept rest = elim (Bool-cases (succeeded o.status)) [
  | inl went ↦ rw (went, go_on) rest
  | inr failed ↦ rw (failed, go_on) kept
]

pub run_maintenance_tick-IsConsistent :
    (db : Db) (adapters : MaintenanceAdapters)
    → IsConsistent db
    → IsConsistent (run_maintenance_tick db adapters).0
unfolding run_maintenance_tick
run_maintenance_tick-IsConsistent db adapters h =
    let started = db.now in
    let first = nvd_pass adapters started db in
    let second = kev_pass adapters started first.0 in
    let third = epss_pass adapters started second.0 in
    let publish : Db → Db × List SourceOutcome = λ d. ((sync_all_case_publications d).0, []) in
    let score : Db → Db × List SourceOutcome = λ d. go_on (epss_pass adapters started d) publish in
    let list : Db → Db × List SourceOutcome = λ d. go_on (kev_pass adapters started d) score in
    let h₁ = nvd_pass-IsConsistent adapters started db h in
    let h₂ = kev_pass-IsConsistent adapters started first.0 h₁ in
    let h₃ = epss_pass-IsConsistent adapters started second.0 h₂ in
    go_on-IsConsistent first list h₁ (
      go_on-IsConsistent second score h₂
        (go_on-IsConsistent third publish h₃ (sync_all-IsConsistent third.0 h₃)))
