-- ===== src/Filter/Stage.antt =====
-- The stage of src/pipeline/filter-stage.ts. The columns that saveCheapFilterResult writes are those of the
-- article, without the matched signals, which are kept for display.
use ai_event_intelligence_ag.Base.{
  ℕ, ◌+◌, String, not, Option, none, some, List, [], ◌∷◌, ◌++◌, if◌then◌else◌, ◌or_else◌, keep,
  join, length,
}
use ai_event_intelligence_ag.Base.Table.{update_by}
use ai_event_intelligence_ag.Base.Text.{is_empty}
use ai_event_intelligence_ag.Events.Records.{Article, EventDb, article_key}
use ai_event_intelligence_ag.Events.Store.{update_processing_status}
use ai_event_intelligence_ag.Events.Queues.{list_by_processing_status}
use ai_event_intelligence_ag.Filter.Signals.{
  CheapFilterDecision, CheapFilterSignals, CyberKeywords, VendorProduct, drop_it,
  find_matched_inventory, infer_source_tier, keep_it, maybe_keep, security_categories_of,
}
use ai_event_intelligence_ag.Filter.Cascade.{FilterDecision, run_cheap_filter_cascade}

-- The detectors, and the inventory that they look for.
pub record Detectors : Type 0 where
  pub to_lower_case : String → String
  pub keywords : String → CyberKeywords
  pub cves : String → List String
  pub vendors : String → List String
  pub products : String → List String
  pub inventory : List VendorProduct

abbrev pub present : Option String → List String
present none = []
present (some s) = if is_empty s then [] else s ∷ []

abbrev pub filter_text : Article → String
filter_text article = join "\n" (
    (present article.title ++ present article.rss_summary)
    ++ keep (λ s. not (is_empty s)) article.rss_categories)

-- `collectCheapFilterSignals`
unfoldable pub collect_cheap_filter_signals : Detectors → Article → CheapFilterSignals
collect_cheap_filter_signals d article =
    let text = filter_text article in
    let vendors = d.vendors text in
    let products = d.products text in
    record {
      keywords = d.keywords text;
      cves = d.cves text;
      vendors = vendors;
      products = products;
      source_tier = infer_source_tier (d.to_lower_case (article.source_name or_else ""));
      security_categories = security_categories_of d.to_lower_case article.rss_categories;
      matched_inventory = find_matched_inventory vendors products d.inventory;
    }

-- `decideCheapFilter`
unfoldable pub decide_cheap_filter : Detectors → ℕ → Article → FilterDecision
decide_cheap_filter d now article =
    run_cheap_filter_cascade
      (record { now = now; published_at = article.published_at; to_lower_case = d.to_lower_case })
      (collect_cheap_filter_signals d article)

abbrev pub decision_text : CheapFilterDecision → String
decision_text keep_it = "KEEP"
decision_text maybe_keep = "MAYBE_KEEP"
decision_text drop_it = "DROP"

-- `saveCheapFilterResult` of src/db/repositories/article.repository.ts
unfoldable pub save_cheap_filter_result : EventDb → ℕ → FilterDecision → EventDb
save_cheap_filter_result db article_id decision = record db {
  articles =
      update_by article_key article_id
        (λ a. record a {
          cheap_filter_decision = some (decision_text decision.decision);
          cheap_filter_score = some decision.score;
          cheap_filter_reasons = decision.reasons;
          cheap_filter_blocking_reasons = decision.blocking_reasons;
        })
        db.articles;
}

pub data CheapFilterMode : Type 0 where
  gating advisory : CheapFilterMode

-- `FilterStageResult`
pub record FilterStageResult : Type 0 where
  pub reviewed : ℕ
  pub extraction_pending : ℕ
  pub extraction_pending_low_priority : ℕ
  pub ignored : ℕ

abbrev pub pass_low : EventDb → ℕ → FilterStageResult → EventDb × FilterStageResult
pass_low db article_id r = (
  update_processing_status db article_id "EXTRACTION_PENDING_LOW_PRIORITY" none,
  record r { extraction_pending_low_priority = r.extraction_pending_low_priority + 1 },
)

-- One turn of the loop.
unfoldable pub filter_turn :
    Detectors
    → CheapFilterMode
    → EventDb
    → Article
    → FilterStageResult
    → EventDb × FilterStageResult
filter_turn d mode db article r =
    let decision = decide_cheap_filter d db.now article in
    let saved = save_cheap_filter_result db article.id decision in
    elim decision.decision [
      | keep_it ↦ (
        update_processing_status saved article.id "EXTRACTION_PENDING" none,
        record r { extraction_pending = r.extraction_pending + 1 },
      )
      | maybe_keep ↦ pass_low saved article.id r
      | drop_it ↦ elim mode [
        | advisory ↦ pass_low saved article.id r
        | gating ↦ (
          update_processing_status saved article.id "IGNORED"
              (some (join "," decision.blocking_reasons)),
          record r { ignored = r.ignored + 1 },
        )
      ]
    ]

unfoldable pub filter_turns :
    Detectors
    → CheapFilterMode
    → EventDb
    → List Article
    → FilterStageResult
    → EventDb × FilterStageResult
filter_turns d mode db [] r = (db, r)
filter_turns d mode db (article ∷ rest) r =
    let (next, counted) = filter_turn d mode db article r in filter_turns d mode next rest counted

abbrev pub nothing_filtered : ℕ → FilterStageResult
nothing_filtered reviewed = record {
  reviewed = reviewed;
  extraction_pending = 0;
  extraction_pending_low_priority = 0;
  ignored = 0;
}

-- `runCheapFilterStage`
unfoldable pub run_cheap_filter_stage :
    Detectors → CheapFilterMode → EventDb → ℕ → EventDb × FilterStageResult
run_cheap_filter_stage d mode db limit =
    let candidates = list_by_processing_status db "NEW" limit in
    filter_turns d mode db candidates (nothing_filtered (length candidates))

-- `PipelineProfile`
pub data PipelineProfile : Type 0 where
  analyst_eval full cve_mvp : PipelineProfile

-- `cheapFilterModeForProfile` of src/pipeline/profile.ts
abbrev pub cheap_filter_mode_for_profile : PipelineProfile → CheapFilterMode
cheap_filter_mode_for_profile full = gating
cheap_filter_mode_for_profile _ = advisory
