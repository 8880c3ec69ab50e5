-- ===== src/Cve/Maintenance/Cursors.antt =====
-- The rows of the table of cursors, as src/cve/maintenance.ts writes them.
use ai_event_intelligence_ag.Base.{
  ◌≡◌, refl, true, false, some, arith, inl, inr, Option-cases, find_holds,
}
use ai_event_intelligence_ag.Base.Table.{find-update_where}
use ai_event_intelligence_ag.Cve.Records.{SourceName, source_eq, RefreshState}
use ai_event_intelligence_ag.Cve.Store.{
  Db, get_refresh_state, upsert_refresh_state, overwrite_refresh_state,
}

pub source_eq_sound : (a b : SourceName) → source_eq a b ≡ true → a ≡ b
source_eq_sound a b h = ground arith

pub source_eq_refl : (a : SourceName) → source_eq a a ≡ true
source_eq_refl a = ground arith

-- The row that was written is read back.
pub get_refresh_state-upsert :
    (db : Db) (s : RefreshState)
    → get_refresh_state (upsert_refresh_state db s) s.source
      ≡ some (record s { updated_at = db.now })
unfolding upsert_refresh_state
get_refresh_state-upsert db s = elim (Option-cases (get_refresh_state db s.source)) [
  | inl missing ↦ rw (missing, upsert_refresh_state, source_eq_refl s.source)
  | inr (l, found) ↦
      let kept = find_holds (λ r. source_eq r.source s.source) db.refresh_states l found in
      rw (found, upsert_refresh_state)
        (ground (
          arith,
          kept,
          source_eq_sound l.source s.source kept,
          find-update_where (λ r. source_eq r.source s.source) (λ r. source_eq r.source s.source)
              (overwrite_refresh_state db.now s) db.refresh_states (λ _. refl),
        ))
]

-- The rows of the other sources stay.
pub get_refresh_state-upsert_other :
    (db : Db) (s : RefreshState) (source : SourceName)
    → source_eq s.source source ≡ false
    → get_refresh_state (upsert_refresh_state db s) source ≡ get_refresh_state db source
unfolding upsert_refresh_state
get_refresh_state-upsert_other db s source other =
    elim (Option-cases (get_refresh_state db source)) [
      | inl missing ↦ ground (
        arith,
        find-update_where (λ r. source_eq r.source source) (λ r. source_eq r.source s.source)
            (overwrite_refresh_state db.now s) db.refresh_states (λ _. refl),
      )
      | inr (l, found) ↦
          let kept = find_holds (λ r. source_eq r.source source) db.refresh_states l found in
          ground (
            arith,
            kept,
            source_eq_sound l.source source kept,
            find-update_where (λ r. source_eq r.source source) (λ r. source_eq r.source s.source)
                (overwrite_refresh_state db.now s) db.refresh_states (λ _. refl),
          )
    ]

-- The other tables stay.
module _ (db : Db) (s : RefreshState) where
  pub upsert-cases : (upsert_refresh_state db s).cases ≡ db.cases
  unfolding upsert_refresh_state
  upsert-cases = ground arith

  pub upsert-observations : (upsert_refresh_state db s).observations ≡ db.observations
  unfolding upsert_refresh_state
  upsert-observations = ground arith

  pub upsert-review_events : (upsert_refresh_state db s).review_events ≡ db.review_events
  unfolding upsert_refresh_state
  upsert-review_events = ground arith

  pub upsert-case_articles : (upsert_refresh_state db s).case_articles ≡ db.case_articles
  unfolding upsert_refresh_state
  upsert-case_articles = ground arith
