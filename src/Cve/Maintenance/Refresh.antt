-- ===== src/Cve/Maintenance/Refresh.antt =====
-- What the loops of src/cve/maintenance.ts do to the current terminal observations.
use ai_event_intelligence_ag.Base.{
  ℕ, ◌≡◌, refl, subst, ◌&&◌, ◌==◌, String, true, false, Option, none, some, List, [], ◌∷◌, arith,
  inl, inr, Option-cases, if◌then◌else◌, ==_refl,
}
use ai_event_intelligence_ag.StableJson.{Json, stable_stringify}
use ai_event_intelligence_ag.StableJson.Jsonb.{to_jsonb}
use ai_event_intelligence_ag.StableJson.Equality.{json_eq_refl}
use ai_event_intelligence_ag.StableJson.Storage.{stable_stringify-to_jsonb}
use ai_event_intelligence_ag.Cve.Records.{SourceName, AttemptKind, source_eq}
use ai_event_intelligence_ag.Cve.Store.{
  Db, current_terminal_observation, append_source_observation, mark_enriched,
}
use ai_event_intelligence_ag.Cve.Enrichment.Observations.{latest_terminal-eq}
use ai_event_intelligence_ag.Cve.Maintenance.{
  persist_refresh, refresh_entries, already_stored, same_as_stored, count_if,
}

stored_is_same : (v : Json) → same_as_stored (some (to_jsonb v)) v ≡ true
unfolding same_as_stored
stored_is_same v = rw (stable_stringify-to_jsonb v) (json_eq_refl (stable_stringify v))

module _ (db : Db) (k : ℕ) (source : SourceName) (value : Json) (kind : AttemptKind) where
  -- After the write, the current terminal observation of the case and source has the value.
  pub persist_refresh-current :
      already_stored
        (current_terminal_observation (persist_refresh db k source value kind).0 k source)
        value
      ≡ true
  unfolding persist_refresh append_source_observation mark_enriched
  persist_refresh-current =
      ground (arith, latest_terminal-eq db k source, stored_is_same value, ==_refl k)

  persist_refresh-current_at :
      (c : ℕ)
      → (k == c) ≡ true
      → already_stored
          (current_terminal_observation (persist_refresh db k source value kind).0 c source)
          value
        ≡ true
  persist_refresh-current_at c same =
      let written = (persist_refresh db k source value kind).0 in
      let here : k ≡ c = ground arith in
      subst (λ j. already_stored (current_terminal_observation written j source) value ≡ true) here
        persist_refresh-current

  pub persist_refresh_others :
      (c : ℕ) (s : SourceName)
      → (k == c && source_eq source s) ≡ false
      → current_terminal_observation (persist_refresh db k source value kind).0 c s
        ≡ current_terminal_observation db c s
  unfolding persist_refresh append_source_observation mark_enriched
  persist_refresh_others c s h = ground arith

-- The value that the catalogue has for a case: that of its last entry.
abbrev pub catalogue_value : (String → Option ℕ) → List (String × Json) → ℕ → Option Json
catalogue_value lookup [] c = none
catalogue_value lookup ((cve_id, value) ∷ rest) c = elim (catalogue_value lookup rest c) [
  | some later ↦ some later
  | none ↦ elim (lookup cve_id) [ none ↦ none | some k ↦ if k == c then some value else none ]
]

module _ (lookup : String → Option ℕ) (source : SourceName) (kind : AttemptKind) where
  -- A case that the catalogue does not name keeps its current terminal observations.
  pub refresh_entries_missing :
      (db : Db) (entries : List (String × Json)) (n : ℕ) (c : ℕ) (s : SourceName)
      → catalogue_value lookup entries c ≡ none
      → current_terminal_observation (refresh_entries db lookup source kind entries n).0 c s
        ≡ current_terminal_observation db c s
  unfolding refresh_entries
  refresh_entries_missing db [] n c s absent = refl
  refresh_entries_missing db ((cve_id, value) ∷ rest) n c s absent =
      elim (Option-cases (lookup cve_id)) [
        | inl untracked ↦ ground (arith, refresh_entries_missing db rest n c s)
        | inr (k, tracked) ↦
            let step = persist_refresh db k source value kind in
            ground (
              arith,
              refresh_entries_missing step.0 rest (count_if step.1 n) c s,
              persist_refresh_others db k source value kind c s,
            )
      ]

  -- Another source's observations are left alone.
  pub refresh_entries_other_source :
      (db : Db) (entries : List (String × Json)) (n : ℕ) (c : ℕ) (s : SourceName)
      → source_eq source s ≡ false
      → current_terminal_observation (refresh_entries db lookup source kind entries n).0 c s
        ≡ current_terminal_observation db c s
  unfolding refresh_entries
  refresh_entries_other_source db [] n c s other = refl
  refresh_entries_other_source db ((cve_id, value) ∷ rest) n c s other =
      elim (Option-cases (lookup cve_id)) [
        | inl untracked ↦ ground (arith, refresh_entries_other_source db rest n c s other)
        | inr (k, tracked) ↦
            let step = persist_refresh db k source value kind in
            ground (
              arith,
              refresh_entries_other_source step.0 rest (count_if step.1 n) c s other,
              persist_refresh_others db k source value kind c s,
            )
      ]

  -- A case that the catalogue names has the catalogue's value after the loop.
  pub refresh_entries-current :
      (db : Db) (entries : List (String × Json)) (n : ℕ) (c : ℕ) (v : Json)
      → catalogue_value lookup entries c ≡ some v
      → already_stored
          (current_terminal_observation
            (refresh_entries db lookup source kind entries n).0
            c
            source)
          v
        ≡ true
  unfolding refresh_entries
  refresh_entries-current db [] n c v named = cc
  refresh_entries-current db ((cve_id, value) ∷ rest) n c v named =
      elim (Option-cases (lookup cve_id)) [
        | inl untracked ↦ ground (arith, refresh_entries-current db rest n c v)
        | inr (k, tracked) ↦
            let step = persist_refresh db k source value kind in
            elim (Option-cases (catalogue_value lookup rest c)) [
              | inl last ↦ ground (
                arith,
                refresh_entries_missing step.0 rest (count_if step.1 n) c source,
                persist_refresh-current_at db k source value kind c,
              )
              | inr (later, more) ↦
                  ground (arith, refresh_entries-current step.0 rest (count_if step.1 n) c v)
            ]
      ]
