-- ===== src/Cve/Maintenance/Listing.antt =====
-- What one pass of the KEV source of src/cve/maintenance.ts does to the current KEV observations.
use mathlib.Core.Option
use ai_event_intelligence_ag.Base.{
  inl, inr, arith, Option-cases, ℕ, ◌≡◌, String, true, Option, none, some, List, map, length,
}
use ai_event_intelligence_ag.DateText.{to_iso_string}
use ai_event_intelligence_ag.StableJson.{Json, stable_stringify}
use ai_event_intelligence_ag.StableJson.Equality.{json_eq_sound}
use ai_event_intelligence_ag.Cve.Records.{
  Observation, SourceName, kev, maintenance_kev, AttemptKind,
}
use ai_event_intelligence_ag.Cve.Store.{Db, current_terminal_observation}
use ai_event_intelligence_ag.Cve.Review.{kev_listed}
use ai_event_intelligence_ag.Cve.Feeds.{MaintenanceAdapters, KevNormalized, fetched, kev_json}
use ai_event_intelligence_ag.Cve.Maintenance.{
  refresh_entries, refresh_pass, record_outcome, kev_pass, case_by_cve, already_stored,
  same_as_stored, outcome_row, pass_ok,
}
use ai_event_intelligence_ag.Cve.Maintenance.Refresh.{
  catalogue_value, refresh_entries_missing, refresh_entries-current,
}
use ai_event_intelligence_ag.Cve.Maintenance.Cursors.{upsert-observations}

-- The entries that the loop goes through.
abbrev pub kev_entries : List (String × KevNormalized) → List (String × Json)
kev_entries catalogue = map (λ e. (e.0, kev_json e.1)) catalogue

current_of_observations :
    (d e : Db) (c : ℕ) (s : SourceName)
    → d.observations ≡ e.observations
    → current_terminal_observation d c s ≡ current_terminal_observation e c s
current_of_observations d e c s h = rw h

current-refresh_pass :
    (started : ℕ) (db : Db) (lookup : String → Option ℕ) (source : SourceName) (kind : AttemptKind)
    (entries : List (String × Json)) (cursor : String) (c : ℕ) (s : SourceName)
    → current_terminal_observation (refresh_pass started db lookup source kind entries cursor).0 c s
      ≡ current_terminal_observation (refresh_entries db lookup source kind entries 0).0 c s
unfolding refresh_pass record_outcome
current-refresh_pass started db lookup source kind entries cursor c s =
    let (next, appended) = refresh_entries db lookup source kind entries 0 in
    let o = pass_ok source (length entries) appended (some cursor) in
    current_of_observations (refresh_pass started db lookup source kind entries cursor).0 next c s
      (upsert-observations next (outcome_row started next.now o))

-- The canonical text of what an observation holds.
abbrev pub canonical_value : Option Observation → Option Json
canonical_value none = none
canonical_value (some o) = Option.map stable_stringify o.normalized_value

already_stored_sound :
    (o : Option Observation) (v : Json)
    → already_stored o v ≡ true
    → canonical_value o ≡ some (stable_stringify v)
unfolding same_as_stored
already_stored_sound none v h = cc
already_stored_sound (some o) v h = elim (Option-cases o.normalized_value) [
  | inl missing ↦ ground arith
  | inr (w, held) ↦ ground (arith, json_eq_sound (stable_stringify w) (stable_stringify v))
]

module _ (adapters : MaintenanceAdapters) (started : ℕ) (db : Db)
    (catalogue : List (String × KevNormalized)) (c : ℕ)
    (got : adapters.fetch_all ≡ fetched catalogue) where
  kev_pass_stored :
      (v : Json)
      → catalogue_value (case_by_cve adapters.to_upper_case db.cases) (kev_entries catalogue) c
        ≡ some v
      → already_stored (current_terminal_observation (kev_pass adapters started db).0 c kev) v
        ≡ true
  unfolding kev_pass
  kev_pass_stored v named =
      let lookup = case_by_cve adapters.to_upper_case db.cases in
      let entries = kev_entries catalogue in
      let cursor = to_iso_string db.now in
      rw
        (
          got,
          kev_pass,
          current-refresh_pass started db lookup kev maintenance_kev entries cursor c kev,
        )
        (refresh_entries-current lookup kev maintenance_kev db entries 0 c v named)

  -- After a KEV pass whose fetch succeeded, the current terminal KEV observation of a case that the
  -- catalogue names has the catalogue's last value for it: the two have the same canonical text.
  pub kev_pass-current :
      (v : Json)
      → catalogue_value (case_by_cve adapters.to_upper_case db.cases) (kev_entries catalogue) c
        ≡ some v
      → canonical_value (current_terminal_observation (kev_pass adapters started db).0 c kev)
        ≡ some (stable_stringify v)
  kev_pass-current v named =
      already_stored_sound (current_terminal_observation (kev_pass adapters started db).0 c kev) v
        (kev_pass_stored v named)

  -- After a KEV pass whose fetch succeeded, a case that the catalogue does not name is listed exactly
  -- when it was listed before: a CVE that left the catalogue stays listed.
  pub kev_pass_unlisted :
      catalogue_value (case_by_cve adapters.to_upper_case db.cases) (kev_entries catalogue) c ≡ none
      → kev_listed (kev_pass adapters started db).0 c ≡ kev_listed db c
  unfolding kev_pass
  kev_pass_unlisted absent =
      let lookup = case_by_cve adapters.to_upper_case db.cases in
      let entries = kev_entries catalogue in
      let cursor = to_iso_string db.now in
      rw (
        got,
        kev_pass,
        current-refresh_pass started db lookup kev maintenance_kev entries cursor c kev,
        refresh_entries_missing lookup kev maintenance_kev db entries 0 c kev absent,
      )
