-- ===== src/Cve/Enrichment/History.antt =====
-- `runInitialEnrichment` of src/cve/cases.ts only ever adds observations, and counts them.
use mathlib.Core.List.{append_assoc}
use ai_event_intelligence_ag.Base.{
  ℕ, ◌+◌, ◌*◌, ◌≤◌, ◌≡◌, refl, ap, sym, subst, Bool-cases, ◌∙◌, List, [], ◌∷◌, ◌++◌, length,
  length-append, arith, inl, inr, Option-cases,
}
use ai_event_intelligence_ag.Cve.Records.{
  SourceName, SourceStatus, AttemptKind, initial, CveCase, Observation,
}
use ai_event_intelligence_ag.Cve.Store.{
  Db, find_case_by_id, mark_enriched, append_source_observation, new_observation,
}
use ai_event_intelligence_ag.Cve.Review.{sync_case_publication}
use ai_event_intelligence_ag.Cve.Review.Publication.{observations-sync}
use ai_event_intelligence_ag.Cve.Enrichment.{
  Adapters, Reply, Persisted, unchanged, EnrichmentRun, persist_observation, enrich_sources,
  enrich_case, enrich_cases, run_initial_enrichment, sources, tally, failure_input, failure_result,
  is_enrichment_failure, repeats, latest_terminal, outcome_input,
}

-- The later tables hold the earlier observations, and `n` newer ones in front of them.
abbrev pub Appends : Db → Db → ℕ → Type 0
Appends before after n =
    (new : List Observation) × (after.observations ≡ new ++ before.observations) × (length new ≡ n)

Appends-trans : (a b c : Db) (m n : ℕ) → Appends a b m → Appends b c n → Appends a c (m + n)
Appends-trans a b c m n (xs, p, l) (ys, q, k) = (
  ys ++ xs,
  q ∙ ap (λ o. ys ++ o) p ∙ sym (append_assoc ys xs a.observations),
  omega (arith, length-append {0} ys xs),
)

abbrev rows : Persisted → ℕ
rows unchanged = 0
rows _ = 1

abbrev total : EnrichmentRun → ℕ
total t = t.appended + t.failed + t.transient

total-tally : (p : Persisted) (t : EnrichmentRun) → total (tally p t) ≡ total t + rows p
total-tally unchanged t = omega arith
total-tally _ t = omega arith

rows-failure : (s : SourceStatus) → rows (failure_result s) ≡ 1
rows-failure s = ground arith

rows_bounded : (p : Persisted) → rows p ≤ 1
rows_bounded unchanged = omega arith
rows_bounded _ = omega arith

persist-Appends :
    (db : Db) (r : CveCase) (source : SourceName) (reply : Reply) (kind : AttemptKind)
    → let (after, result) = persist_observation db r source reply kind in
      Appends db after (rows result)
unfolding persist_observation append_source_observation
persist-Appends db r source reply kind = elim (Bool-cases (is_enrichment_failure reply.status)) [
  | inl bad ↦
      rw (bad, persist_observation)
        (
          new_observation db (failure_input r source reply kind) ∷ [],
          refl,
          sym (rows-failure reply.status),
        )
  | inr good ↦ elim (Bool-cases (repeats (latest_terminal db r.id source) reply.normalized_value)) [
    | inl again ↦ rw (good, again, persist_observation) ([], refl, refl)
    | inr fresh ↦
        rw (good, fresh, persist_observation)
          (new_observation db (outcome_input r source reply kind) ∷ [], refl, refl)
  ]
]

-- After a run that began with the tally `t`: as many rows as the tally grew by, at most `bound`.
abbrev Tallied : Db → EnrichmentRun → Db × EnrichmentRun → ℕ → Type 0
Tallied before t (after, t') bound =
    (n : ℕ) × Appends before after n × (total t' ≡ total t + n) × (n ≤ bound)

enrich_sources-Tallied :
    (db : Db) (adapters : Adapters) (r : CveCase) (todo : List SourceName) (t : EnrichmentRun)
    → Tallied db t (enrich_sources db adapters r todo t) (length todo)
unfolding enrich_sources
enrich_sources-Tallied db adapters r [] t = (0, ([], refl, refl), omega arith, omega arith)
enrich_sources-Tallied db adapters r (source ∷ rest) t =
    let reply = adapters source r.cve_id in
    let step = persist_observation db r source reply initial in
    let next = enrich_sources step.0 adapters r rest (tally step.1 t) in
    let (n, more, grew, fits) = enrich_sources-Tallied step.0 adapters r rest (tally step.1 t) in
    (
      rows step.1 + n,
      Appends-trans db step.0 next.0 (rows step.1) n (persist-Appends db r source reply initial)
          more,
      omega (arith, total-tally step.1 t),
      omega (arith, rows_bounded step.1),
    )

same_observations-Appends :
    (a b c : Db) (n : ℕ) → c.observations ≡ b.observations → Appends a b n → Appends a c n
same_observations-Appends a b c n e (xs, p, l) = (xs, e ∙ p, l)

enrich_case-Tallied :
    (db : Db) (adapters : Adapters) (k : ℕ) (t : EnrichmentRun)
    → Tallied db t (enrich_case db adapters k t) 3
unfolding enrich_case mark_enriched
enrich_case-Tallied db adapters k t = elim (Option-cases (find_case_by_id db k)) [
  | inl missing ↦ rw (missing, enrich_case) (0, ([], refl, refl), omega arith, omega arith)
  | inr (r, found) ↦
      let observed = enrich_sources db adapters r sources t in
      let (n, more, grew, fits) = enrich_sources-Tallied db adapters r sources t in
      rw (found, enrich_case)
        (
          n,
          same_observations-Appends db observed.0
              (sync_case_publication (mark_enriched k observed.0) k).0 n
              (observations-sync (mark_enriched k observed.0) k) more,
          grew,
          fits,
        )
]

enrich_cases-Tallied :
    (db : Db) (adapters : Adapters) (ids : List ℕ) (t : EnrichmentRun)
    → Tallied db t (enrich_cases db adapters ids t) (length ids * 3)
unfolding enrich_cases
enrich_cases-Tallied db adapters [] t = (0, ([], refl, refl), omega arith, omega arith)
enrich_cases-Tallied db adapters (k ∷ rest) t =
    let step = enrich_case db adapters k t in
    let (m, first, grew, fits) = enrich_case-Tallied db adapters k t in
    let (n, more, grew', fits') = enrich_cases-Tallied step.0 adapters rest step.1 in
    (
      m + n,
      Appends-trans db step.0 (enrich_cases step.0 adapters rest step.1).0 m n first more,
      omega arith,
      omega arith,
    )

-- A run only adds observations in front of those that were there: one for each attempt that it counts
-- as appended, failed or transient, and no more than it attempted.
pub run_initial_enrichment-Appends :
    (db : Db) (case_ids : List ℕ) (adapters : Adapters)
    → let (after, result) = run_initial_enrichment db case_ids adapters in
      Appends db after (result.appended + result.failed + result.transient)
      × (result.appended + result.failed + result.transient ≤ result.attempted)
unfolding run_initial_enrichment
run_initial_enrichment-Appends db case_ids adapters =
    let start : EnrichmentRun = record { appended = 0; failed = 0; transient = 0 } in
    let (n, new, grew, fits) = enrich_cases-Tallied db adapters case_ids start in
    let counted : n ≡ total (enrich_cases db adapters case_ids start).1 = omega arith in
    (subst (λ m. Appends db (enrich_cases db adapters case_ids start).0 m) counted new, omega arith)
