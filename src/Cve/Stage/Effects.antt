-- ===== src/Cve/Stage/Effects.antt =====
-- What `runCaseConsolidationStage` of src/pipeline/case-consolidation-stage.ts leaves cases and links at.
use ai_event_intelligence_ag.Base.{
  ℕ, ◌≡◌, refl, subst, ◌∙◌, String, true, some, List, [], ◌∷◌, ◌++◌, arith, inl, inr, Bool-cases,
  Option-cases, if◌then◌else◌,
}
use ai_event_intelligence_ag.Cve.Records.{mentioned, CveCase, SourceName, AttemptKind, initial}
use ai_event_intelligence_ag.Cve.Store.{
  Db, find_case_by_id, mark_enriched, append_source_observation, mark_approved, mark_unpublished,
  append_review_event,
}
use ai_event_intelligence_ag.Cve.Review.{sync_case_publication, sync_cases, publish, withdraw}
use ai_event_intelligence_ag.Cve.Review.Publication.{
  IsSettled, listed, status_of-sync_cases, observations-sync_cases, should_publish_of_observations,
}
use ai_event_intelligence_ag.Cve.Review.Verdict.{link_state}
use ai_event_intelligence_ag.Cve.Enrichment.{
  Adapters, Reply, EnrichmentRun, persist_observation, enrich_sources, enrich_case, enrich_cases,
  run_initial_enrichment, sources, tally,
}
use ai_event_intelligence_ag.Cve.Consolidation.{
  Evidence, ConsolidatedResult, consolidate_article_cve_evidence,
}
use ai_event_intelligence_ag.Cve.Consolidation.Links.{attaches, AllMentioned}
use ai_event_intelligence_ag.Cve.Consolidation.Cases.{consolidate-link_state}
use ai_event_intelligence_ag.Cve.Stage.{
  CompletedTask, is_queued, collect_results, collect_tasks, collect_interpreted_evidence,
  new_case_ids, enrich_and_sync, run_case_consolidation_stage,
}

-- The links are no concern of the enrichment and the sync.
links-sync : (db : Db) (c : ℕ) → (sync_case_publication db c).0.case_articles ≡ db.case_articles
unfolding sync_case_publication publish withdraw mark_approved mark_unpublished append_review_event
links-sync db c = ground arith

links-sync_cases :
    (db : Db) (rows : List CveCase) → (sync_cases db rows).0.case_articles ≡ db.case_articles
unfolding sync_cases
links-sync_cases db [] = refl
links-sync_cases db (r ∷ rest) =
    links-sync_cases (sync_case_publication db r.id).0 rest ∙ links-sync db r.id

links-persist :
    (db : Db) (r : CveCase) (source : SourceName) (reply : Reply) (kind : AttemptKind)
    → (persist_observation db r source reply kind).0.case_articles ≡ db.case_articles
unfolding persist_observation append_source_observation
links-persist db r source reply kind = ground arith

links-enrich_sources :
    (db : Db) (adapters : Adapters) (r : CveCase) (todo : List SourceName) (t : EnrichmentRun)
    → (enrich_sources db adapters r todo t).0.case_articles ≡ db.case_articles
unfolding enrich_sources
links-enrich_sources db adapters r [] t = refl
links-enrich_sources db adapters r (source ∷ rest) t =
    let step = persist_observation db r source (adapters source r.cve_id) initial in
    links-enrich_sources step.0 adapters r rest (tally step.1 t)
    ∙ links-persist db r source (adapters source r.cve_id) initial

links-mark_enriched : (db : Db) (k : ℕ) → (mark_enriched k db).case_articles ≡ db.case_articles
unfolding mark_enriched
links-mark_enriched db k = refl

links-enrich_case :
    (db : Db) (adapters : Adapters) (k : ℕ) (t : EnrichmentRun)
    → (enrich_case db adapters k t).0.case_articles ≡ db.case_articles
unfolding enrich_case
links-enrich_case db adapters k t = elim (Option-cases (find_case_by_id db k)) [
  | inl missing ↦ ground arith
  | inr (r, found) ↦
      let observed = (enrich_sources db adapters r sources t).0 in
      rw (found, enrich_case)
        (links-sync (mark_enriched k observed) k
          ∙ links-mark_enriched observed k
          ∙ links-enrich_sources db adapters r sources t)
]

links-enrich_cases :
    (db : Db) (adapters : Adapters) (ks : List ℕ) (t : EnrichmentRun)
    → (enrich_cases db adapters ks t).0.case_articles ≡ db.case_articles
unfolding enrich_cases
links-enrich_cases db adapters [] t = refl
links-enrich_cases db adapters (k ∷ ks) t =
    let step = enrich_case db adapters k t in
    links-enrich_cases step.0 adapters ks step.1 ∙ links-enrich_case db adapters k t

links-enrich_and_sync :
    (db : Db) (ensured : List CveCase) (adapters : Adapters)
    → (enrich_and_sync db ensured adapters).case_articles ≡ db.case_articles
unfolding enrich_and_sync run_initial_enrichment
links-enrich_and_sync db ensured adapters =
    links-sync_cases (run_initial_enrichment db (new_case_ids db ensured) adapters).0 ensured
    ∙ links-enrich_cases db adapters (new_case_ids db ensured)
        (record { appended = 0; failed = 0; transient = 0 })

AllMentioned-append :
    (xs ys : List Evidence) → AllMentioned xs → AllMentioned ys → AllMentioned (xs ++ ys)
AllMentioned-append [] ys h g = g
AllMentioned-append (x ∷ xs) ys h g = (h.0, AllMentioned-append xs ys h.1 g)

collect_results-AllMentioned :
    (now : ℕ) (t : CompletedTask) (rows : List (String × String)) (seen : List (ℕ × String))
    → AllMentioned (collect_results now t rows seen).0
unfolding collect_results
collect_results-AllMentioned now t [] seen = tt
collect_results-AllMentioned now t ((cve_id, text) ∷ rest) seen =
    elim (Bool-cases (is_queued t.target_id cve_id seen)) [
      | inl again ↦ rw (again, collect_results) (collect_results-AllMentioned now t rest seen)
      | inr new ↦
          rw (new, collect_results)
            (refl, collect_results-AllMentioned now t rest ((t.target_id, cve_id) ∷ seen))
    ]

collect_tasks-AllMentioned :
    (now : ℕ) (tasks : List CompletedTask) (seen : List (ℕ × String))
    → AllMentioned (collect_tasks now tasks seen)
unfolding collect_tasks
collect_tasks-AllMentioned now [] seen = tt
collect_tasks-AllMentioned now (t ∷ rest) seen =
    let (queued, next) = collect_results now t t.results seen in
    AllMentioned-append queued (collect_tasks now rest next)
      (collect_results-AllMentioned now t t.results seen) (collect_tasks-AllMentioned now rest next)

IsSettled-sync_cases :
    (db : Db) (rows : List CveCase) (c : ℕ)
    → listed c rows ≡ true
    → IsSettled (sync_cases db rows).0 c
IsSettled-sync_cases db rows c due =
    let gate =
      should_publish_of_observations (sync_cases db rows).0 db c
        (observations-sync_cases db rows) in
    elim (Option-cases (find_case_by_id db c)) [
      | inl missing ↦ ground (arith, gate, status_of-sync_cases db rows c)
      | inr (r, found) ↦ ground (arith, gate, status_of-sync_cases db rows c)
    ]

module _ (db : Db) (tasks : List CompletedTask) (adapters : Adapters) (e : Evidence)
    (more : List Evidence) (consolidation : ConsolidatedResult)
    (collected : collect_interpreted_evidence db tasks ≡ e ∷ more)
    (returned : (consolidate_article_cve_evidence db (e ∷ more)).1 ≡ some consolidation) where
  outcome :
      (run_case_consolidation_stage db tasks adapters).0
      ≡ enrich_and_sync
          (consolidate_article_cve_evidence db (e ∷ more)).0
          consolidation.cases
          adapters
  unfolding run_case_consolidation_stage
  outcome = rw (collected, returned, run_case_consolidation_stage)

  -- Where some evidence is collected and its consolidation returns, every case that the evidence names
  -- has, after the stage, the status that its observations call for, whatever the adapters replied.
  pub run_case_consolidation_stage-IsSettled :
      (c : ℕ)
      → listed c consolidation.cases ≡ true
      → IsSettled (run_case_consolidation_stage db tasks adapters).0 c
  unfolding enrich_and_sync
  run_case_consolidation_stage-IsSettled c due =
      let ready = (consolidate_article_cve_evidence db (e ∷ more)).0 in
      let ids = new_case_ids ready consolidation.cases in
      rw outcome (
        IsSettled-sync_cases (run_initial_enrichment ready ids adapters).0 consolidation.cases c
          due)

  -- Where some evidence is collected and its consolidation returns, the stage leaves every link that the
  -- evidence names as mentioned, whatever verdict an analyst had given it, and the others as they were.
  pub run_case_consolidation_stage-link_state :
      (c a : ℕ)
      → link_state (run_case_consolidation_stage db tasks adapters).0 c a ≡ (
          if attaches consolidation.cases (e ∷ more) c a then some mentioned else link_state db c a)
  unfolding collect_interpreted_evidence
  run_case_consolidation_stage-link_state c a =
      let ready = (consolidate_article_cve_evidence db (e ∷ more)).0 in
      let all = subst AllMentioned collected (collect_tasks-AllMentioned db.now tasks []) in
      rw (outcome, links-enrich_and_sync ready consolidation.cases adapters)
        (consolidate-link_state db (e ∷ more) consolidation c a all returned)
