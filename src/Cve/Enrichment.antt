-- ===== src/Cve/Enrichment.antt =====
-- The enrichment half of src/cve/cases.ts, with the result type of src/cve/enrichment.ts.
-- An adapter is an HTTP client: it is a parameter, the reply for each source and CVE id.
pub mod Observations
pub mod Gate
pub mod History
use ai_event_intelligence_ag.Base.{
  ℕ, ◌+◌, ◌*◌, String, Bool, true, false, ◌&&◌, Option, none, some, List, [], ◌∷◌, if◌then◌else◌,
  find, length,
}
use ai_event_intelligence_ag.StableJson.{Json, null, stable_stringify, json_eq}
use ai_event_intelligence_ag.Cve.Records.{
  SourceName, nvd, kev, epss, SourceStatus, AttemptKind, initial, CveCase, Observation,
  is_terminal_status,
}
use ai_event_intelligence_ag.Cve.Store.{
  Db, find_case_by_id, list_source_observations, append_source_observation, ObservationInput,
  mark_enriched,
}
use ai_event_intelligence_ag.Cve.Review.{sync_case_publication}

-- `EnrichmentOutcome | EnrichmentFailure`; the status tells which of the two it is.
pub record Reply : Type 0 where
  pub status : SourceStatus
  pub normalized_value : Option Json
  pub error : Option String
  pub provenance : String

abbrev pub Adapters : Type 0
Adapters = SourceName → String → Reply

-- `isEnrichmentFailure`
abbrev pub is_enrichment_failure : SourceStatus → Bool
is_enrichment_failure SourceStatus.failed = true
is_enrichment_failure SourceStatus.transient_failure = true
is_enrichment_failure _ = false

pub data Persisted : Type 0 where
  appended unchanged failed transient : Persisted

abbrev pub failure_result : SourceStatus → Persisted
failure_result SourceStatus.transient_failure = transient
failure_result _ = failed

abbrev pub json_or_null : Option Json → Json
json_or_null none = null
json_or_null (some v) = v

-- `sameNormalizedValue` of cases.ts
unfoldable pub same_normalized_value : Option Json → Option Json → Bool
same_normalized_value a b =
    json_eq (stable_stringify (json_or_null a)) (stable_stringify (json_or_null b))

-- `existing.find(obs => …)`, over the observations of one source, newest first
abbrev pub latest_terminal : Db → ℕ → SourceName → Option Observation
latest_terminal db case_id source =
    find (λ o. is_terminal_status o.status) (list_source_observations db case_id source)

abbrev pub repeats : Option Observation → Option Json → Bool
repeats none value = false
repeats (some o) value = same_normalized_value o.normalized_value value

abbrev pub failure_input : CveCase → SourceName → Reply → AttemptKind → ObservationInput
failure_input r source reply kind = record {
  case_id = r.id;
  source = source;
  status = reply.status;
  normalized_value = none;
  provenance = some reply.provenance;
  attempt_kind = kind;
  last_error = reply.error;
}

abbrev pub outcome_input : CveCase → SourceName → Reply → AttemptKind → ObservationInput
outcome_input r source reply kind = record {
  case_id = r.id;
  source = source;
  status = reply.status;
  normalized_value = reply.normalized_value;
  provenance = some reply.provenance;
  attempt_kind = kind;
  last_error = none;
}

-- `persistObservation`
unfoldable pub persist_observation :
    Db → CveCase → SourceName → Reply → AttemptKind → Db × Persisted
persist_observation db r source reply kind =
    if is_enrichment_failure reply.status
    then (
      append_source_observation db (failure_input r source reply kind),
      failure_result reply.status,
    )
    else if repeats (latest_terminal db r.id source) reply.normalized_value
    then (db, unchanged)
    else (append_source_observation db (outcome_input r source reply kind), appended)

pub record EnrichmentRun : Type 0 where
  pub appended : ℕ
  pub failed : ℕ
  pub transient : ℕ

abbrev pub tally : Persisted → EnrichmentRun → EnrichmentRun
tally Persisted.appended t = record t { appended = t.appended + 1 }
tally Persisted.failed t = record t { failed = t.failed + 1 }
tally Persisted.transient t = record t { transient = t.transient + 1 }
tally Persisted.unchanged t = t

-- ['nvd', 'kev', 'epss']
abbrev pub sources : List SourceName
sources = nvd ∷ kev ∷ epss ∷ []

-- The inner loop of `runInitialEnrichment`.
unfoldable pub enrich_sources :
    Db → Adapters → CveCase → List SourceName → EnrichmentRun → Db × EnrichmentRun
enrich_sources db adapters r [] t = (db, t)
enrich_sources db adapters r (source ∷ rest) t =
    let (next, result) = persist_observation db r source (adapters source r.cve_id) initial in
    enrich_sources next adapters r rest (tally result t)

-- One round of the outer loop; a case that is not there is skipped.
unfoldable pub enrich_case : Db → Adapters → ℕ → EnrichmentRun → Db × EnrichmentRun
unfolding enrich_sources
enrich_case db adapters case_id t = elim (find_case_by_id db case_id) [
  | none ↦ (db, t)
  | some r ↦
      let (observed, t') = enrich_sources db adapters r sources t in
      ((sync_case_publication (mark_enriched case_id observed) case_id).0, t')
]

unfoldable pub enrich_cases : Db → Adapters → List ℕ → EnrichmentRun → Db × EnrichmentRun
unfolding enrich_case
enrich_cases db adapters [] t = (db, t)
enrich_cases db adapters (case_id ∷ rest) t =
    let (next, t') = enrich_case db adapters case_id t in enrich_cases next adapters rest t'

pub record EnrichmentRunResult : Type 0 where
  pub attempted : ℕ
  pub appended : ℕ
  pub failed : ℕ
  pub transient : ℕ

-- `runInitialEnrichment`
unfoldable pub run_initial_enrichment : Db → List ℕ → Adapters → Db × EnrichmentRunResult
unfolding enrich_cases
run_initial_enrichment db case_ids adapters =
    let (after, t) =
      enrich_cases db adapters case_ids (record { appended = 0; failed = 0; transient = 0 }) in
    (
      after,
      record {
        attempted = length case_ids * 3;
        appended = t.appended;
        failed = t.failed;
        transient = t.transient;
      },
    )
