-- ===== src/Cve/Enrichment/Gate.antt =====
-- `runInitialEnrichment` of src/cve/cases.ts leaves every case that it enriched at its gate.
use ai_event_intelligence_ag.Base.{
  ℕ, ◌≡◌, refl, subst, ◌∙◌, ◌==◌, true, false, some, List, [], ◌∷◌, arith, ◌⊎◌, inl, inr,
  Bool-cases, Option-cases, any,
}
use ai_event_intelligence_ag.Base.Table.{find_by-update_by, key-find_by}
use ai_event_intelligence_ag.Cve.Records.{SourceName, nvd, kev, CveCase, AttemptKind, initial}
use ai_event_intelligence_ag.Cve.Store.{
  Db, case_key, enrich_row, find_case_by_id, current_terminal_observation, mark_enriched,
  append_source_observation,
}
use ai_event_intelligence_ag.Cve.Review.{should_publish, sync_case_publication}
use ai_event_intelligence_ag.Cve.Review.Publication.{
  status_of, gate_status, IsSettled, sync-IsSettled, status_of-sync, should_publish-sync,
  should_publish_of_observations,
}
use ai_event_intelligence_ag.Cve.Enrichment.{
  Adapters, Reply, EnrichmentRun, persist_observation, enrich_sources, enrich_case, enrich_cases,
  run_initial_enrichment, sources, tally,
}
use ai_event_intelligence_ag.Cve.Enrichment.Observations.{
  persist_observation_others, should_publish_of_current,
}

cases-persist :
    (db : Db) (r : CveCase) (source : SourceName) (reply : Reply) (kind : AttemptKind)
    → (persist_observation db r source reply kind).0.cases ≡ db.cases
unfolding persist_observation append_source_observation
cases-persist db r source reply kind = ground arith

cases-enrich_sources :
    (db : Db) (adapters : Adapters) (r : CveCase) (todo : List SourceName) (t : EnrichmentRun)
    → (enrich_sources db adapters r todo t).0.cases ≡ db.cases
unfolding enrich_sources
cases-enrich_sources db adapters r [] t = refl
cases-enrich_sources db adapters r (source ∷ rest) t =
    let step = persist_observation db r source (adapters source r.cve_id) initial in
    cases-enrich_sources step.0 adapters r rest (tally step.1 t)
    ∙ cases-persist db r source (adapters source r.cve_id) initial

current_terminal-enrich_sources :
    (db : Db) (adapters : Adapters) (r : CveCase) (todo : List SourceName) (t : EnrichmentRun)
    (c : ℕ) (s : SourceName)
    → (r.id == c) ≡ false
    → current_terminal_observation (enrich_sources db adapters r todo t).0 c s
      ≡ current_terminal_observation db c s
unfolding enrich_sources
current_terminal-enrich_sources db adapters r [] t c s h = refl
current_terminal-enrich_sources db adapters r (source ∷ rest) t c s h =
    let step = persist_observation db r source (adapters source r.cve_id) initial in
    current_terminal-enrich_sources step.0 adapters r rest (tally step.1 t) c s h
    ∙ persist_observation_others db r source (adapters source r.cve_id) initial c s (rw h)

pub status_of-mark_enriched :
    (db : Db) (k c : ℕ) → status_of (mark_enriched k db) c ≡ status_of db c
unfolding mark_enriched
status_of-mark_enriched db k c =
    ground (arith, find_by-update_by case_key c k (enrich_row db.now) db.cases (λ _. refl))

observations-mark_enriched : (db : Db) (k : ℕ) → (mark_enriched k db).observations ≡ db.observations
unfolding mark_enriched
observations-mark_enriched db k = refl

-- What a settled case needs to stay settled.
IsSettled-of_same :
    (d e : Db) (c : ℕ)
    → status_of e c ≡ status_of d c
    → should_publish e c ≡ should_publish d c
    → IsSettled d c
    → IsSettled e c
IsSettled-of_same d e c s g h = ground arith

module _ (db : Db) (adapters : Adapters) (k : ℕ) (t : EnrichmentRun) where
  enrich_case-IsSettled : IsSettled (enrich_case db adapters k t).0 k
  unfolding enrich_case
  enrich_case-IsSettled = elim (Option-cases (find_case_by_id db k)) [
    | inl missing ↦ ground arith
    | inr (r, found) ↦
        rw (found, enrich_case)
          (sync-IsSettled (mark_enriched k (enrich_sources db adapters r sources t).0) k)
  ]

  enrich_case_others :
      (c : ℕ) → (k == c) ≡ false → IsSettled db c → IsSettled (enrich_case db adapters k t).0 c
  unfolding enrich_case
  enrich_case_others c other h = elim (Option-cases (find_case_by_id db k)) [
    | inl missing ↦ rw (missing, enrich_case) h
    | inr (r, found) ↦
        let observed = (enrich_sources db adapters r sources t).0 in
        let marked = mark_enriched k observed in
        let named : r.id ≡ k = key-find_by case_key k db.cases r found in
        let elsewhere : (r.id == c) ≡ false = rw named other in
        let gate : should_publish observed c ≡ should_publish db c =
          should_publish_of_current observed db c
            (current_terminal-enrich_sources db adapters r sources t c nvd elsewhere)
            (current_terminal-enrich_sources db adapters r sources t c kev elsewhere) in
        rw (found, enrich_case)
          (IsSettled-of_same db (sync_case_publication marked k).0 c
            (ground (
              arith,
              status_of-sync marked k c,
              status_of-mark_enriched observed k c,
              cases-enrich_sources db adapters r sources t,
            ))
            (should_publish-sync marked k c
              ∙ should_publish_of_observations marked observed c
                  (observations-mark_enriched observed k)
              ∙ gate)
            h)
  ]

  -- After one round a case is settled, or still to come.
  enrich_case_progress :
      (rest : List ℕ) (c : ℕ)
      → (IsSettled db c) ⊎ (any (λ j. j == c) (k ∷ rest) ≡ true)
      → (IsSettled (enrich_case db adapters k t).0 c) ⊎ (any (λ j. j == c) rest ≡ true)
  enrich_case_progress rest c h = elim (Bool-cases (k == c)) [
    | inl now ↦
        let same : k ≡ c = ground arith in
        inl (subst (λ j. IsSettled (enrich_case db adapters k t).0 j) same enrich_case-IsSettled)
    | inr later ↦ elim h [
      | inl settled ↦ inl (enrich_case_others c later settled)
      | inr due ↦ inr (rw later at due)
    ]
  ]

enrich_cases-IsSettled :
    (db : Db) (adapters : Adapters) (ids : List ℕ) (t : EnrichmentRun) (c : ℕ)
    → (IsSettled db c) ⊎ (any (λ k. k == c) ids ≡ true)
    → IsSettled (enrich_cases db adapters ids t).0 c
unfolding enrich_cases
enrich_cases-IsSettled db adapters [] t c (inl h) = h
enrich_cases-IsSettled db adapters [] t c (inr h) = cc
enrich_cases-IsSettled db adapters (k ∷ rest) t c h =
    let step = enrich_case db adapters k t in
    enrich_cases-IsSettled step.0 adapters rest step.1 c
      (enrich_case_progress db adapters k t rest c h)

-- Whatever the adapters reply, a case among those enriched is published after the run exactly when
-- its observations, as they stand after the run, meet a gate.
pub run_initial_enrichment-gate :
    (db : Db) (case_ids : List ℕ) (adapters : Adapters) (c : ℕ) (r : CveCase)
    → any (λ k. k == c) case_ids ≡ true
    → find_case_by_id (run_initial_enrichment db case_ids adapters).0 c ≡ some r
    → r.status ≡ gate_status (run_initial_enrichment db case_ids adapters).0 c
unfolding run_initial_enrichment
run_initial_enrichment-gate db case_ids adapters c r due found =
    let start : EnrichmentRun = record { appended = 0; failed = 0; transient = 0 } in
    ground (arith, enrich_cases-IsSettled db adapters case_ids start c (inr due))
