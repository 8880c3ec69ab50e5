-- ===== src/Cve/Enrichment/Observations.antt =====
-- What `persistObservation` of src/cve/cases.ts does to the current terminal observation.
use mathlib.Core.Option
use ai_event_intelligence_ag.Base.{
  ℕ, ◌≡◌, ap, ◌∙◌, ◌&&◌, ◌==◌, true, false, Option, none, some, ◌∷◌, arith, find-keep, ==_refl,
}
use ai_event_intelligence_ag.StableJson.{Json, null, stable_stringify}
use ai_event_intelligence_ag.StableJson.Jsonb.{to_jsonb}
use ai_event_intelligence_ag.StableJson.Equality.{json_eq_refl, json_eq_sound}
use ai_event_intelligence_ag.StableJson.Storage.{stable_stringify-to_jsonb}
use ai_event_intelligence_ag.Cve.Records.{
  SourceName, nvd, kev, AttemptKind, CveCase, Observation, is_terminal_status, source_eq,
}
use ai_event_intelligence_ag.Cve.Store.{
  Db, is_from, current_terminal_observation, append_source_observation, new_observation,
  ObservationInput,
}
use ai_event_intelligence_ag.Cve.Review.{should_publish}
use ai_event_intelligence_ag.Cve.Enrichment.{
  Reply, unchanged, json_or_null, is_enrichment_failure, same_normalized_value, latest_terminal,
  repeats, persist_observation, failure_input, failure_result,
}

-- The list query and the DISTINCT ON query name the same row.
pub latest_terminal-eq :
    (db : Db) (c : ℕ) (s : SourceName)
    → latest_terminal db c s ≡ current_terminal_observation db c s
latest_terminal-eq db c s =
    find-keep (λ o. is_terminal_status o.status) (is_from c s) db.observations

-- A write that is not terminal, or is for another case or source, leaves the current one in place.
pub current_terminal-append :
    (db : Db) (i : ObservationInput) (c : ℕ) (s : SourceName)
    → (i.case_id == c && source_eq i.source s && is_terminal_status i.status) ≡ false
    → current_terminal_observation (append_source_observation db i) c s
      ≡ current_terminal_observation db c s
unfolding append_source_observation
current_terminal-append db i c s h = rw h

-- The gate of a case looks at its NVD and KEV rows alone.
pub should_publish_of_current :
    (d e : Db) (c : ℕ)
    → current_terminal_observation d c nvd ≡ current_terminal_observation e c nvd
    → current_terminal_observation d c kev ≡ current_terminal_observation e c kev
    → should_publish d c ≡ should_publish e c
unfolding should_publish
should_publish_of_current d e c n k = rw (n, k)

failure_not_terminal :
    (reply : Reply)
    → is_enrichment_failure reply.status ≡ true
    → is_terminal_status reply.status ≡ false
failure_not_terminal reply h = ground arith

same_stored : (v : Option Json) → same_normalized_value (Option.map to_jsonb v) v ≡ true
unfolding same_normalized_value
same_stored none = json_eq_refl (stable_stringify null)
same_stored (some v) = rw (stable_stringify-to_jsonb v) (json_eq_refl (stable_stringify v))

source_eq_refl : (s : SourceName) → source_eq s s ≡ true
source_eq_refl s = ground arith

persist_repeated :
    (db : Db) (r : CveCase) (source : SourceName) (reply : Reply) (kind : AttemptKind)
    → is_enrichment_failure reply.status ≡ false
    → repeats (latest_terminal db r.id source) reply.normalized_value ≡ true
    → persist_observation db r source reply kind ≡ (db, unchanged)
unfolding persist_observation
persist_repeated db r source reply kind done again = rw (done, again)

repeats_sound :
    (o : Option Observation) (v : Option Json)
    → repeats o v ≡ true
    → Option.map (λ (o : Observation). stable_stringify (json_or_null o.normalized_value)) o
      ≡ some (stable_stringify (json_or_null v))
unfolding same_normalized_value
repeats_sound none v h = cc
repeats_sound (some o) v h = ap some (
    json_eq_sound (stable_stringify (json_or_null o.normalized_value))
      (stable_stringify (json_or_null v)) h)

module _ (db : Db) (r : CveCase) (source : SourceName) (reply : Reply) (kind : AttemptKind) where
  kept_by_failure :
      is_enrichment_failure reply.status ≡ true
      → (c : ℕ) (s : SourceName)
      → current_terminal_observation (persist_observation db r source reply kind).0 c s
        ≡ current_terminal_observation db c s
  unfolding persist_observation
  kept_by_failure h c s =
      rw (h, persist_observation)
        (current_terminal-append db (failure_input r source reply kind) c s
          (ground (arith, failure_not_terminal reply h)))

  -- A failed attempt is recorded as one new row, and neither changes the current terminal observation
  -- of any case and source, nor the gate of any case.
  pub persist_observation_failure :
      is_enrichment_failure reply.status ≡ true
      → (c : ℕ) (s : SourceName)
      → let (after, result) = persist_observation db r source reply kind in
        (current_terminal_observation after c s ≡ current_terminal_observation db c s)
        × (should_publish after c ≡ should_publish db c)
        × (after.observations
            ≡ new_observation db (failure_input r source reply kind) ∷ db.observations)
        × (result ≡ failure_result reply.status)
  unfolding persist_observation append_source_observation
  persist_observation_failure h c s = (
    kept_by_failure h c s,
    should_publish_of_current (persist_observation db r source reply kind).0 db c
        (kept_by_failure h c nvd) (kept_by_failure h c kev),
    ground arith,
    ground arith,
  )

  -- A row of another case or source is no concern of this write.
  pub persist_observation_others :
      (c : ℕ) (s : SourceName)
      → (r.id == c && source_eq source s) ≡ false
      → current_terminal_observation (persist_observation db r source reply kind).0 c s
        ≡ current_terminal_observation db c s
  unfolding persist_observation append_source_observation
  persist_observation_others c s h = ground arith

  persist_observation-repeats :
      is_enrichment_failure reply.status ≡ false
      → repeats
          (current_terminal_observation (persist_observation db r source reply kind).0 r.id source)
          reply.normalized_value
        ≡ true
  unfolding persist_observation append_source_observation same_normalized_value
  persist_observation-repeats h = ground (
    arith,
    latest_terminal-eq db r.id source,
    same_stored reply.normalized_value,
    ==_refl r.id,
    source_eq_refl source,
  )

  -- The same outcome once more writes nothing.
  pub persist_observation_idempotent :
      is_enrichment_failure reply.status ≡ false
      → let after = (persist_observation db r source reply kind).0 in
        persist_observation after r source reply kind ≡ (after, unchanged)
  persist_observation_idempotent h =
      let after = (persist_observation db r source reply kind).0 in
      persist_repeated after r source reply kind h (
        ap (λ o. repeats o reply.normalized_value) (latest_terminal-eq after r.id source)
        ∙ persist_observation-repeats h)

  -- After an outcome is persisted, the current terminal observation of its case and source has its
  -- value: the two have the same canonical text.
  pub persist_observation_current :
      is_enrichment_failure reply.status ≡ false
      → let after = (persist_observation db r source reply kind).0 in
        Option.map
          (λ (o : Observation). stable_stringify (json_or_null o.normalized_value))
          (current_terminal_observation after r.id source)
        ≡ some (stable_stringify (json_or_null reply.normalized_value))
  persist_observation_current h =
      repeats_sound
        (current_terminal_observation (persist_observation db r source reply kind).0 r.id source)
        reply.normalized_value (persist_observation-repeats h)
