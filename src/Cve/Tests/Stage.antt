-- ===== src/Cve/Tests/Stage.antt =====
-- The consolidation stage at the catalogue, after an analyst rejected the link of the first article.
use ai_event_intelligence_ag.Base.{◌≡◌, refl, some, [], ◌∷◌, none}
use ai_event_intelligence_ag.Cve.Records.{mentioned, human_rejected, SourceStatus}
use ai_event_intelligence_ag.Cve.Store.{Db, ensure_case, upsert_case_article}
use ai_event_intelligence_ag.Cve.Review.Publication.{IsSettled}
use ai_event_intelligence_ag.Cve.Review.Verdict.{link_state}
use ai_event_intelligence_ag.Cve.Enrichment.{Adapters}
use ai_event_intelligence_ag.Cve.Consolidation.{
  Evidence, ConsolidatedResult, consolidate_article_cve_evidence,
}
use ai_event_intelligence_ag.Cve.Stage.{
  CompletedTask, evidence_of, collect_interpreted_evidence, run_case_consolidation_stage,
}
use ai_event_intelligence_ag.Cve.Stage.Effects.{
  run_case_consolidation_stage-IsSettled, run_case_consolidation_stage-link_state,
}
use ai_event_intelligence_ag.Cve.Tests.{catalogue, critical_case, first_link, second_link}

abbrev rejected : Db
rejected = record catalogue {
  case_articles = second_link ∷ record first_link { lifecycle_state = human_rejected } ∷ [];
}

abbrev interpreted : CompletedTask
interpreted = record {
  id = 7;
  target_id = 11;
  completed_at = some 1200;
  results = ("CVE-2024-3400", "exploited") ∷ [];
}

abbrev silent : Adapters
silent source cve_id = record {
  status = SourceStatus.failed;
  normalized_value = none;
  error = some "timeout";
  provenance = "test";
}

abbrev found : Evidence
found = evidence_of 2000 interpreted ("CVE-2024-3400", "exploited")

abbrev consolidated : ConsolidatedResult
consolidated = record {
  cases_ensured = 1;
  articles_attached = 1;
  observations_appended = 0;
  cases = critical_case ∷ [];
}

collects : collect_interpreted_evidence rejected (interpreted ∷ []) ≡ found ∷ []
unfolding collect_interpreted_evidence
collects = refl

returns : (consolidate_article_cve_evidence rejected (found ∷ [])).1 ≡ some consolidated
unfolding consolidate_article_cve_evidence ensure_case upsert_case_article
returns = refl

run_case_consolidation_stage-IsSettled_example :
    IsSettled (run_case_consolidation_stage rejected (interpreted ∷ []) silent).0 1
run_case_consolidation_stage-IsSettled_example =
    run_case_consolidation_stage-IsSettled rejected (interpreted ∷ []) silent found [] consolidated
      collects returns 1 refl

run_case_consolidation_stage-link_state_example :
    link_state (run_case_consolidation_stage rejected (interpreted ∷ []) silent).0 1 11
    ≡ some mentioned
run_case_consolidation_stage-link_state_example =
    run_case_consolidation_stage-link_state rejected (interpreted ∷ []) silent found [] consolidated
      collects returns 1 11
