-- ===== src/Cve/System/Stages.antt =====
-- The stage of src/pipeline/case-consolidation-stage.ts keeps the cases in step with the journal.
use ai_event_intelligence_ag.Base.{Option-cases, List-cases, List, ◌∷◌, inl, inr}
use ai_event_intelligence_ag.Cve.Records.{CveCase}
use ai_event_intelligence_ag.Cve.Store.{Db}
use ai_event_intelligence_ag.Cve.Review.Journal.{IsConsistent}
use ai_event_intelligence_ag.Cve.Review.Journal.Operations.{sync_cases-IsConsistent}
use ai_event_intelligence_ag.Cve.Enrichment.{Adapters, run_initial_enrichment}
use ai_event_intelligence_ag.Cve.Consolidation.{consolidate_article_cve_evidence}
use ai_event_intelligence_ag.Cve.Stage.{
  CompletedTask, collect_interpreted_evidence, new_case_ids, enrich_and_sync,
  run_case_consolidation_stage,
}
use ai_event_intelligence_ag.Cve.System.Writes.{
  run_initial_enrichment-IsConsistent, consolidate-IsConsistent,
}

enrich_and_sync-IsConsistent :
    (db : Db) (ensured : List CveCase) (adapters : Adapters)
    → IsConsistent db
    → IsConsistent (enrich_and_sync db ensured adapters)
unfolding enrich_and_sync
enrich_and_sync-IsConsistent db ensured adapters h =
    let ids = new_case_ids db ensured in
    sync_cases-IsConsistent (run_initial_enrichment db ids adapters).0 ensured
      (run_initial_enrichment-IsConsistent db ids adapters h)

pub run_case_consolidation_stage-IsConsistent :
    (db : Db) (tasks : List CompletedTask) (adapters : Adapters)
    → IsConsistent db
    → IsConsistent (run_case_consolidation_stage db tasks adapters).0
unfolding run_case_consolidation_stage
run_case_consolidation_stage-IsConsistent db tasks adapters h =
    elim (List-cases (collect_interpreted_evidence db tasks)) [
      | inl nothing ↦ rw (nothing, run_case_consolidation_stage) h
      | inr (e, more, collected) ↦
          let step = consolidate_article_cve_evidence db (e ∷ more) in
          let ready = consolidate-IsConsistent db (e ∷ more) h in
          elim (Option-cases step.1) [
            | inl refused ↦ rw (collected, refused, run_case_consolidation_stage) ready
            | inr (made, returned) ↦
                rw (collected, returned, run_case_consolidation_stage)
                  (enrich_and_sync-IsConsistent step.0 made.cases adapters ready)
          ]
    ]
