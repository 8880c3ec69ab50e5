-- ===== src/Cve/System/Writes.antt =====
-- The writes of src/cve/cases.ts keep the cases in step with the journal.
use ai_event_intelligence_ag.Base.{
  ℕ, ◌≡◌, refl, sym, String, List, [], ◌∷◌, arith, inl, inr, map, Option-cases,
}
use ai_event_intelligence_ag.Cve.Records.{SourceName, AttemptKind, initial, CveCase, RefreshState}
use ai_event_intelligence_ag.Cve.Store.{
  Db, find_case_by_id, ensure_case, upsert_case_article, append_source_observation, mark_enriched,
  ObservationInput, CaseArticleInput, upsert_refresh_state,
}
use ai_event_intelligence_ag.Cve.Review.Journal.{
  IsConsistent, mark_enriched-IsConsistent, ensure_case-IsConsistent,
}
use ai_event_intelligence_ag.Cve.Review.Journal.Operations.{sync_case_publication-IsConsistent}
use ai_event_intelligence_ag.Cve.Enrichment.{
  failure_input, outcome_input, Adapters, Reply, EnrichmentRun, persist_observation, enrich_sources,
  enrich_case, enrich_cases, run_initial_enrichment, sources, tally,
}
use ai_event_intelligence_ag.Cve.Consolidation.{
  Evidence, ensure_cases, first_seen_article, attach_article, attach_articles, case_for,
  attach_input, distinct, consolidate_article_cve_evidence,
}

-- The predicate reads the cases, their serial and the journal alone.
pub IsConsistent-of_same :
    (d e : Db)
    → d.cases ≡ e.cases
    → d.next_case_id ≡ e.next_case_id
    → d.review_events ≡ e.review_events
    → IsConsistent d
    → IsConsistent e
IsConsistent-of_same d e cases next events h = record {
  cases_consistent = rw (sym cases, sym events) h.cases_consistent;
  cases_below = rw (sym cases, sym next) h.cases_below;
  events_below = rw (sym next, sym events) h.events_below;
}

pub append-IsConsistent :
    (db : Db) (i : ObservationInput)
    → IsConsistent db
    → IsConsistent (append_source_observation db i)
unfolding append_source_observation
append-IsConsistent db i h =
    IsConsistent-of_same db (append_source_observation db i) refl refl refl h

upsert_link-IsConsistent :
    (db : Db) (i : CaseArticleInput) → IsConsistent db → IsConsistent (upsert_case_article db i)
unfolding upsert_case_article
upsert_link-IsConsistent db i h =
    IsConsistent-of_same db (upsert_case_article db i) (ground arith) (ground arith) (ground arith)
      h

pub upsert_cursor-IsConsistent :
    (db : Db) (s : RefreshState) → IsConsistent db → IsConsistent (upsert_refresh_state db s)
unfolding upsert_refresh_state
upsert_cursor-IsConsistent db s h =
    IsConsistent-of_same db (upsert_refresh_state db s) (ground arith) (ground arith) (ground arith)
      h

-- src/cve/cases.ts: enrichment
persist_observation-IsConsistent :
    (db : Db) (r : CveCase) (source : SourceName) (reply : Reply) (kind : AttemptKind)
    → IsConsistent db
    → IsConsistent (persist_observation db r source reply kind).0
unfolding persist_observation
persist_observation-IsConsistent db r source reply kind h = ground (
  arith,
  append-IsConsistent db (failure_input r source reply kind) h,
  append-IsConsistent db (outcome_input r source reply kind) h,
)

enrich_sources-IsConsistent :
    (db : Db) (adapters : Adapters) (r : CveCase) (todo : List SourceName) (t : EnrichmentRun)
    → IsConsistent db
    → IsConsistent (enrich_sources db adapters r todo t).0
unfolding enrich_sources
enrich_sources-IsConsistent db adapters r [] t h = h
enrich_sources-IsConsistent db adapters r (source ∷ rest) t h =
    let step = persist_observation db r source (adapters source r.cve_id) initial in
    enrich_sources-IsConsistent step.0 adapters r rest (tally step.1 t)
      (persist_observation-IsConsistent db r source (adapters source r.cve_id) initial h)

enrich_case-IsConsistent :
    (db : Db) (adapters : Adapters) (k : ℕ) (t : EnrichmentRun)
    → IsConsistent db
    → IsConsistent (enrich_case db adapters k t).0
unfolding enrich_case
enrich_case-IsConsistent db adapters k t h = elim (Option-cases (find_case_by_id db k)) [
  | inl missing ↦ rw (missing, enrich_case) h
  | inr (r, found) ↦
      let observed = (enrich_sources db adapters r sources t).0 in
      rw (found, enrich_case)
        (sync_case_publication-IsConsistent (mark_enriched k observed) k (
          mark_enriched-IsConsistent observed k
            (enrich_sources-IsConsistent db adapters r sources t h)))
]

enrich_cases-IsConsistent :
    (db : Db) (adapters : Adapters) (ks : List ℕ) (t : EnrichmentRun)
    → IsConsistent db
    → IsConsistent (enrich_cases db adapters ks t).0
unfolding enrich_cases
enrich_cases-IsConsistent db adapters [] t h = h
enrich_cases-IsConsistent db adapters (k ∷ ks) t h =
    let step = enrich_case db adapters k t in
    enrich_cases-IsConsistent step.0 adapters ks step.1 (enrich_case-IsConsistent db adapters k t h)

pub run_initial_enrichment-IsConsistent :
    (db : Db) (ks : List ℕ) (adapters : Adapters)
    → IsConsistent db
    → IsConsistent (run_initial_enrichment db ks adapters).0
unfolding run_initial_enrichment
run_initial_enrichment-IsConsistent db ks adapters h =
    enrich_cases-IsConsistent db adapters ks (record { appended = 0; failed = 0; transient = 0 }) h

-- src/cve/cases.ts: consolidation
ensure_cases-IsConsistent :
    (db : Db) (evidence : List Evidence) (ids : List String)
    → IsConsistent db
    → IsConsistent (ensure_cases db evidence ids).0
unfolding ensure_cases
ensure_cases-IsConsistent db evidence [] h = h
ensure_cases-IsConsistent db evidence (cve_id ∷ rest) h =
    let made = ensure_case db cve_id (first_seen_article evidence cve_id) in
    let kept = ensure_case-IsConsistent db cve_id (first_seen_article evidence cve_id) h in
    elim (Option-cases made.1) [
      | inl refused ↦ rw (refused, ensure_cases) kept
      | inr (r, there) ↦
          rw (there, ensure_cases) (ensure_cases-IsConsistent made.0 evidence rest kept)
    ]

attach_article-IsConsistent :
    (db : Db) (ensured : List CveCase) (e : Evidence)
    → IsConsistent db
    → IsConsistent (attach_article db ensured e).0
unfolding attach_article
attach_article-IsConsistent db ensured e h = elim (Option-cases (case_for ensured e.cve_id)) [
  | inl unknown ↦ rw (unknown, attach_article) h
  | inr (r, known) ↦ ground (arith, h, upsert_link-IsConsistent db (attach_input r e) h)
]

attach_articles-IsConsistent :
    (db : Db) (ensured : List CveCase) (evidence : List Evidence)
    → IsConsistent db
    → IsConsistent (attach_articles db ensured evidence).0
unfolding attach_articles
attach_articles-IsConsistent db ensured [] h = h
attach_articles-IsConsistent db ensured (e ∷ rest) h =
    let next = (attach_article db ensured e).0 in
    let kept = attach_article-IsConsistent db ensured e h in
    elim (Option-cases (attach_article db ensured e).1) [
      | inl thrown ↦ rw (thrown, attach_articles) kept
      | inr (n, attached) ↦
          rw (attached, attach_articles) (attach_articles-IsConsistent next ensured rest kept)
    ]

pub consolidate-IsConsistent :
    (db : Db) (evidence : List Evidence)
    → IsConsistent db
    → IsConsistent (consolidate_article_cve_evidence db evidence).0
unfolding consolidate_article_cve_evidence
consolidate-IsConsistent db evidence h =
    let ids = distinct (map (λ (e : Evidence). e.cve_id) evidence) in
    let made = ensure_cases db evidence ids in
    let kept = ensure_cases-IsConsistent db evidence ids h in
    elim (Option-cases made.1) [
      | inl refused ↦ rw (refused, consolidate_article_cve_evidence) kept
      | inr (ensured, there) ↦
          rw (there, consolidate_article_cve_evidence)
            (attach_articles-IsConsistent made.0 ensured evidence kept)
    ]
