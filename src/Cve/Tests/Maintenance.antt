-- ===== src/Cve/Tests/Maintenance.antt =====
-- The theorems on src/cve/maintenance.ts at the catalogue.
use mathlib.Core.Option
use ai_event_intelligence_ag.Base.{
  ◌≡◌, refl, String, true, some, none, if◌then◌else◌, List, [], ◌∷◌,
}
use ai_event_intelligence_ag.StableJson.{stable_stringify}
use ai_event_intelligence_ag.Cve.Records.{nvd, kev}
use ai_event_intelligence_ag.Cve.Store.{
  find_case_by_id, get_refresh_state, current_terminal_observation,
}
use ai_event_intelligence_ag.Cve.Review.{kev_listed}
use ai_event_intelligence_ag.Cve.Review.Publication.{status_of, gate_status}
use ai_event_intelligence_ag.Cve.Feeds.{
  MaintenanceAdapters, KevNormalized, fetched, thrown, kev_json,
}
use ai_event_intelligence_ag.Cve.Maintenance.{
  run_maintenance_tick, kev_pass, outcome_row, pass_failed, nvd_cursor,
}
use ai_event_intelligence_ag.Cve.Maintenance.Tick.{
  completed, run_maintenance_tick-status, run_maintenance_tick_failed,
}
use ai_event_intelligence_ag.Cve.Maintenance.Listing.{
  canonical_value, kev_pass-current, kev_pass_unlisted,
}
use ai_event_intelligence_ag.Cve.Tests.{catalogue}

abbrev listing : KevNormalized
listing = record {
  listed = true;
  date_added = some "2024-04-12";
  due_date = none;
  short_description = none;
}

abbrev online : List (String × KevNormalized) → MaintenanceAdapters
online entries = record {
  fetch_modified = λ from to. fetched [];
  fetch_all = fetched entries;
  fetch_daily = fetched [];
  to_upper_case = λ s. s;
}

abbrev offline : MaintenanceAdapters
offline = record (online []) { fetch_modified = λ from to. thrown "timeout" }

abbrev listed_entries : List (String × KevNormalized)
listed_entries = ("CVE-2024-3400", listing) ∷ []

run_maintenance_tick-status_example :
    let (after, outcomes) = run_maintenance_tick catalogue (online listed_entries) in
    status_of after 1 ≡ (
      if completed outcomes
      then Option.map (λ _. gate_status after 1) (find_case_by_id after 1)
      else status_of catalogue 1)
run_maintenance_tick-status_example =
    run_maintenance_tick-status catalogue (online listed_entries) 1

run_maintenance_tick_failed_example :
    let (after, outcomes) = run_maintenance_tick catalogue offline in
    (after.cases ≡ catalogue.cases)
    × (after.observations ≡ catalogue.observations)
    × (after.review_events ≡ catalogue.review_events)
    × (get_refresh_state after kev ≡ get_refresh_state catalogue kev)
    × (get_refresh_state after nvd
        ≡ some (
            outcome_row catalogue.now catalogue.now
              (pass_failed nvd (some (nvd_cursor catalogue)) "timeout")))
    × (outcomes ≡ pass_failed nvd (some (nvd_cursor catalogue)) "timeout" ∷ [])
run_maintenance_tick_failed_example =
    run_maintenance_tick_failed catalogue offline "timeout" kev refl refl

kev_pass-current_example :
    canonical_value
      (current_terminal_observation (kev_pass (online listed_entries) 2000 catalogue).0 1 kev)
    ≡ some (stable_stringify (kev_json listing))
kev_pass-current_example =
    kev_pass-current (online listed_entries) 2000 catalogue listed_entries 1 refl (kev_json listing)
      refl

kev_pass_unlisted_example :
    kev_listed (kev_pass (online []) 2000 catalogue).0 1 ≡ kev_listed catalogue 1
kev_pass_unlisted_example = kev_pass_unlisted (online []) 2000 catalogue [] 1 refl refl
