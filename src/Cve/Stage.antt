-- ===== src/Cve/Stage.antt =====
-- src/pipeline/case-consolidation-stage.ts: the stage that turns what the interpretation tasks found into
-- cases and links, enriches the new cases and syncs the publication of all cases that it touched. The
-- completed tasks are a parameter, in the order of listCompletedByName, each with the results that its
-- answer holds; logging is left out.
pub mod Effects
use mathlib.Core.Option
use ai_event_intelligence_ag.Base.{
  ℕ, String, Bool, true, false, not, ◌&&◌, Option, none, some, List, [], ◌∷◌, ◌++◌, ◌==◌, str_eq,
  map, if◌then◌else◌, ◌or_else◌, any, keep, length,
}
use ai_event_intelligence_ag.DateText.{to_iso_string}
use ai_event_intelligence_ag.Cve.Records.{mentioned, CveCase, Observation}
use ai_event_intelligence_ag.Cve.Store.{Db}
use ai_event_intelligence_ag.Cve.Review.{sync_cases}
use ai_event_intelligence_ag.Cve.Enrichment.{Adapters, run_initial_enrichment}
use ai_event_intelligence_ag.Cve.Consolidation.{Evidence, consolidate_article_cve_evidence}

-- A completed interpretation task: its CVE ids with their interpretations.
pub record CompletedTask : Type 0 where
  pub id : ℕ
  pub target_id : ℕ
  pub completed_at : Option ℕ
  pub results : List (String × String)

abbrev pub evidence_of : ℕ → CompletedTask → String × String → Evidence
evidence_of now t (cve_id, interpretation) = record {
  cve_id = cve_id;
  article_id = t.target_id;
  lifecycle_state = mentioned;
  interpretation = interpretation;
  automated_at = to_iso_string (t.completed_at or_else now);
  automated_task_id = some t.id;
}

-- `seen.has(dedupeKey)`: a pair of an article and a CVE id is queued once.
abbrev pub is_queued : ℕ → String → List (ℕ × String) → Bool
is_queued article_id cve_id seen = any (λ p. p.0 == article_id && str_eq p.1 cve_id) seen

-- The inner loop, with the pairs seen so far.
unfoldable pub collect_results :
    ℕ
    → CompletedTask
    → List (String × String)
    → List (ℕ × String)
    → List Evidence × List (ℕ × String)
collect_results now t [] seen = ([], seen)
collect_results now t ((cve_id, interpretation) ∷ rest) seen =
    elim (is_queued t.target_id cve_id seen) [
      | true ↦ collect_results now t rest seen
      | false ↦
          let (queued, last) = collect_results now t rest ((t.target_id, cve_id) ∷ seen) in
          (evidence_of now t (cve_id, interpretation) ∷ queued, last)
    ]

unfoldable pub collect_tasks : ℕ → List CompletedTask → List (ℕ × String) → List Evidence
unfolding collect_results
collect_tasks now [] seen = []
collect_tasks now (t ∷ rest) seen =
    let (queued, next) = collect_results now t t.results seen in
    queued ++ collect_tasks now rest next

-- `collectInterpretedEvidence`
unfoldable pub collect_interpreted_evidence : Db → List CompletedTask → List Evidence
unfolding collect_tasks
collect_interpreted_evidence db tasks = collect_tasks db.now tasks []

-- The ids of the cases that have no observation yet.
unfoldable pub new_case_ids : Db → List CveCase → List ℕ
new_case_ids db ensured =
    map (λ (r : CveCase). r.id)
      (keep (λ r. not (any (λ (o : Observation). o.case_id == r.id) db.observations)) ensured)

pub record CaseConsolidationStageResult : Type 0 where
  pub evidence_collected : ℕ
  pub cases_ensured : ℕ
  pub articles_attached : ℕ
  pub enrichment_attempted : ℕ
  pub enrichment_appended : ℕ
  pub enrichment_failed : ℕ
  pub enrichment_transient : ℕ

abbrev pub nothing_collected : CaseConsolidationStageResult
nothing_collected = record {
  evidence_collected = 0;
  cases_ensured = 0;
  articles_attached = 0;
  enrichment_attempted = 0;
  enrichment_appended = 0;
  enrichment_failed = 0;
  enrichment_transient = 0;
}

-- The part after the consolidation: the cases it ensured are enriched where new, and all are synced.
unfoldable pub enrich_and_sync : Db → List CveCase → Adapters → Db
enrich_and_sync db ensured adapters =
    (sync_cases (run_initial_enrichment db (new_case_ids db ensured) adapters).0 ensured).0

-- `runCaseConsolidationStage`, from the completed tasks on; `none` is a thrown error.
unfoldable pub run_case_consolidation_stage :
    Db → List CompletedTask → Adapters → Db × Option CaseConsolidationStageResult
run_case_consolidation_stage db tasks adapters = elim (collect_interpreted_evidence db tasks) [
  | [] ↦ (db, some nothing_collected)
  | e ∷ more ↦
      let (ready, made) = consolidate_article_cve_evidence db (e ∷ more) in
      elim made [
        | none ↦ (ready, none)
        | some consolidation ↦
            let run =
              (run_initial_enrichment ready (new_case_ids ready consolidation.cases) adapters).1 in
            (
              enrich_and_sync ready consolidation.cases adapters,
              some (record {
                evidence_collected = length (e ∷ more);
                cases_ensured = consolidation.cases_ensured;
                articles_attached = consolidation.articles_attached;
                enrichment_attempted = run.attempted;
                enrichment_appended = run.appended;
                enrichment_failed = run.failed;
                enrichment_transient = run.transient;
              }),
            )
      ]
]
