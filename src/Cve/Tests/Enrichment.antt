-- ===== src/Cve/Tests/Enrichment.antt =====
-- The theorems on src/cve/cases.ts at the catalogue.
use ai_event_intelligence_ag.Base.{◌+◌, ◌≤◌, ◌≡◌, refl, true, some, none, [], ◌∷◌, is_some}
use ai_event_intelligence_ag.StableJson.{stable_stringify, json_eq, null}
use ai_event_intelligence_ag.Cve.Records.{CveCase, SourceStatus, mentioned, nvd, epss, initial}
use ai_event_intelligence_ag.Cve.Store.{
  Db, ensure_case, find_case_by_id, CaseArticleInput, upsert_case_article,
  append_source_observation, append_review_event, mark_approved, current_terminal_observation,
  new_observation, mark_enriched,
}
use ai_event_intelligence_ag.Cve.Review.{
  should_publish, sync_case_publication, read_cvss_base, read_kev_listed, publish, withdraw,
}
use ai_event_intelligence_ag.Cve.Review.Publication.{gate_status}
use ai_event_intelligence_ag.Cve.Review.Verdict.{link_state}
use ai_event_intelligence_ag.Cve.Enrichment.{
  Reply, Adapters, Persisted, persist_observation, failure_input, failure_result,
  run_initial_enrichment, same_normalized_value,
}
use ai_event_intelligence_ag.Cve.Enrichment.Observations.{
  persist_observation_failure, persist_observation_idempotent,
}
use ai_event_intelligence_ag.Cve.Enrichment.Gate.{run_initial_enrichment-gate}
use ai_event_intelligence_ag.Cve.Enrichment.History.{Appends, run_initial_enrichment-Appends}
use ai_event_intelligence_ag.Cve.Consolidation.{
  Evidence, ConsolidatedResult, consolidate_article_cve_evidence,
}
use ai_event_intelligence_ag.Cve.Consolidation.Cases.{consolidate-link_state}
use ai_event_intelligence_ag.Cve.Consolidation.Again.{consolidate_idempotent}
use ai_event_intelligence_ag.Cve.Tests.{critical_case, critical_score, catalogue}

abbrev lost : Reply
lost = record {
  status = SourceStatus.transient_failure;
  normalized_value = none;
  error = some "timeout";
  provenance = "nvd";
}

abbrev scored : Reply
scored = record {
  status = SourceStatus.ok;
  normalized_value = some critical_score;
  error = none;
  provenance = "nvd";
}

abbrev flaky : Adapters
flaky nvd cve_id = scored
flaky _ cve_id = lost

persist_observation_failure_example :
    let (after, result) = persist_observation catalogue critical_case nvd lost initial in
    (current_terminal_observation after 1 nvd ≡ current_terminal_observation catalogue 1 nvd)
    × (should_publish after 1 ≡ should_publish catalogue 1)
    × (after.observations
        ≡ new_observation catalogue (failure_input critical_case nvd lost initial)
          ∷ catalogue.observations)
    × (result ≡ failure_result lost.status)
persist_observation_failure_example =
    persist_observation_failure catalogue critical_case nvd lost initial refl 1 nvd

persist_observation_idempotent_example :
    let after = (persist_observation catalogue critical_case epss scored initial).0 in
    persist_observation after critical_case epss scored initial ≡ (after, Persisted.unchanged)
persist_observation_idempotent_example =
    persist_observation_idempotent catalogue critical_case epss scored initial refl

abbrev enriched : Db
enriched = (run_initial_enrichment catalogue (1 ∷ []) flaky).0

abbrev enriched_case : CveCase
enriched_case = elim (find_case_by_id enriched 1) [ none ↦ critical_case | some r ↦ r ]

still_there : find_case_by_id enriched 1 ≡ some enriched_case
unfolding run_initial_enrichment persist_observation append_source_observation mark_enriched
    sync_case_publication should_publish read_cvss_base read_kev_listed publish withdraw
    mark_approved append_review_event same_normalized_value stable_stringify json_eq
still_there = refl

run_initial_enrichment-gate_example : enriched_case.status ≡ gate_status enriched 1
run_initial_enrichment-gate_example =
    run_initial_enrichment-gate catalogue (1 ∷ []) flaky 1 enriched_case refl still_there

run_initial_enrichment-Appends_example :
    let (after, result) = run_initial_enrichment catalogue (1 ∷ []) flaky in
    Appends catalogue after (result.appended + result.failed + result.transient)
    × (result.appended + result.failed + result.transient ≤ result.attempted)
run_initial_enrichment-Appends_example = run_initial_enrichment-Appends catalogue (1 ∷ []) flaky

abbrev again : CaseArticleInput
again = record {
  case_id = 1;
  article_id = 11;
  lifecycle_state = mentioned;
  evidence = null;
  first_evidence = some null;
  automated_task_id = some 8;
}

abbrev mention : Evidence
mention = record {
  cve_id = "CVE-2024-3400";
  article_id = 11;
  lifecycle_state = mentioned;
  interpretation = "exploited";
  automated_at = "2024-04-12T00:00:00.000Z";
  automated_task_id = some 7;
}

abbrev result : ConsolidatedResult
result = record {
  cases_ensured = 1;
  articles_attached = 1;
  observations_appended = 0;
  cases = critical_case ∷ [];
}

returns : (consolidate_article_cve_evidence catalogue (mention ∷ [])).1 ≡ some result
unfolding consolidate_article_cve_evidence ensure_case upsert_case_article
returns = refl

consolidate-link_state_example :
    link_state (consolidate_article_cve_evidence catalogue (mention ∷ [])).0 1 11 ≡ some mentioned
consolidate-link_state_example =
    consolidate-link_state catalogue (mention ∷ []) result 1 11 (refl, tt) returns

consolidate_idempotent_example :
    let first = consolidate_article_cve_evidence catalogue (mention ∷ []) in
    let once_more = consolidate_article_cve_evidence first.0 (mention ∷ []) in
    (is_some first.1 ≡ true) × (once_more.0.cases ≡ first.0.cases) × (is_some once_more.1 ≡ true)
consolidate_idempotent_example = consolidate_idempotent catalogue (mention ∷ []) (refl, tt)
