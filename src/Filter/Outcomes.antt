-- ===== src/Filter/Outcomes.antt =====
-- Which articles the stage of src/pipeline/filter-stage.ts ignores, and how it marks an article.
use ai_event_intelligence_ag.Base.{
  ℕ, ◌≡◌, ◌+◌, refl, Bool, true, false, not, ◌&&◌, List, [], ◌∷◌, arith, if◌then◌else◌, keep,
  length,
}
use ai_event_intelligence_ag.Events.Records.{Article, EventDb}
use ai_event_intelligence_ag.Events.Store.{update_processing_status}
use ai_event_intelligence_ag.Events.Queues.{list_by_processing_status}
use ai_event_intelligence_ag.Filter.Cascade.{is_drop}
use ai_event_intelligence_ag.Filter.Bounds.{is_keep}
use ai_event_intelligence_ag.Filter.Stage.{
  CheapFilterMode, Detectors, FilterStageResult, advisory, decide_cheap_filter, filter_turn,
  filter_turns, gating, nothing_filtered, run_cheap_filter_stage, save_cheap_filter_result,
}

abbrev pub is_advisory : CheapFilterMode → Bool
is_advisory advisory = true
is_advisory gating = false

module _ (d : Detectors) (mode : CheapFilterMode) where
  abbrev pub is_ignored : ℕ → Article → Bool
  is_ignored now a = not (is_advisory mode) && is_drop (decide_cheap_filter d now a).decision

  abbrev pub is_promoted : ℕ → Article → Bool
  is_promoted now a = is_keep (decide_cheap_filter d now a).decision

  filter_turn_counts :
      (db : EventDb) (a : Article) (r : FilterStageResult)
      → let (after, next) = filter_turn d mode db a r in
        (after.now ≡ db.now)
        × (next.ignored ≡ (if is_ignored db.now a then r.ignored + 1 else r.ignored))
        × (next.extraction_pending
            ≡ (if is_promoted db.now a then r.extraction_pending + 1 else r.extraction_pending))
        × (next.extraction_pending + next.extraction_pending_low_priority + next.ignored
            ≡ r.extraction_pending + r.extraction_pending_low_priority + r.ignored + 1)
        × (next.reviewed ≡ r.reviewed)
  unfolding filter_turn update_processing_status save_cheap_filter_result
  filter_turn_counts db a r = (ground arith, ground arith, ground arith, ground arith, ground arith)

  filter_turns_counts :
      (db : EventDb) (candidates : List Article) (r : FilterStageResult)
      → let next = (filter_turns d mode db candidates r).1 in
        (next.ignored ≡ r.ignored + length (keep (is_ignored db.now) candidates))
        × (next.extraction_pending
            ≡ r.extraction_pending + length (keep (is_promoted db.now) candidates))
        × (next.extraction_pending + next.extraction_pending_low_priority + next.ignored
            ≡ r.extraction_pending
              + r.extraction_pending_low_priority
              + r.ignored
              + length candidates)
        × (next.reviewed ≡ r.reviewed)
  unfolding filter_turns
  filter_turns_counts db [] r = (omega arith, omega arith, omega arith, refl)
  filter_turns_counts db (a ∷ rest) r =
      let (next, counted) = filter_turn d mode db a r in
      let (now, dropped, kept, all, same) = filter_turn_counts db a r in
      let (ignored, promoted, sum, reviewed) = filter_turns_counts next rest counted in
      (
        ground (arith, now, dropped, ignored),
        ground (arith, now, kept, promoted),
        ground (arith, all, sum),
        ground (arith, same, reviewed),
      )

  -- A run of the filter stage counts each candidate once. It ignores exactly the candidates that the
  -- cascade drops, and none in advisory mode; it gives priority to exactly those that the cascade keeps.
  pub run_cheap_filter_stage_counts :
      (db : EventDb) (limit : ℕ)
      → let result = (run_cheap_filter_stage d mode db limit).1 in
        let candidates = list_by_processing_status db "NEW" limit in
        (result.ignored ≡ length (keep (is_ignored db.now) candidates))
        × (result.extraction_pending ≡ length (keep (is_promoted db.now) candidates))
        × (result.extraction_pending + result.extraction_pending_low_priority + result.ignored
            ≡ result.reviewed)
        × (result.reviewed ≡ length candidates)
  unfolding run_cheap_filter_stage
  run_cheap_filter_stage_counts db limit =
      let candidates = list_by_processing_status db "NEW" limit in
      let (ignored, promoted, sum, reviewed) =
        filter_turns_counts db candidates (nothing_filtered (length candidates)) in
      (ground (arith, ignored), ground (arith, promoted), ground (arith, sum, reviewed), reviewed)
