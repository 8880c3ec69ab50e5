-- ===== src/Filter/Tests.antt =====
-- Detectors that find a CVE id in every text, and an archive with one new article.
use ai_event_intelligence_ag.Base.{
  ◌≡◌, ◌≤◌, refl, not, true, false, none, some, [], ◌∷◌, if◌then◌else◌,
}
use ai_event_intelligence_ag.Events.Grouping.{is_nonempty}
use ai_event_intelligence_ag.Events.Records.{Article, EventDb}
use ai_event_intelligence_ag.Events.System.{without_events}
use ai_event_intelligence_ag.Filter.Signals.{
  CheapFilterSignals, CyberKeywords, infer_source_tier, official_vendor, security_media,
}
use ai_event_intelligence_ag.Filter.Cascade.{
  FilterInput, calculate_priority_score, has_layer2_cyber_context, is_drop,
  run_cheap_filter_cascade,
}
use ai_event_intelligence_ag.Filter.Bounds.{is_keep, run_cheap_filter_cascade_bounds}
use ai_event_intelligence_ag.Filter.Stage.{Detectors}

bleeping_is_media : infer_source_tier "bleepingcomputer" ≡ security_media
unfolding infer_source_tier
bleeping_is_media = refl

abbrev no_keywords : CyberKeywords
no_keywords = record {
  critical = [];
  critical_exploitation = [];
  critical_incident = [];
  medium = [];
  low = [];
  negative = [];
}

abbrev signals : CheapFilterSignals
signals = record {
  keywords = record no_keywords { medium = "patch" ∷ [] };
  cves = "CVE-2026-1" ∷ [];
  vendors = "Acme" ∷ [];
  products = [];
  source_tier = official_vendor;
  security_categories = [];
  matched_inventory = [];
}

abbrev input : FilterInput
input = record { now = 1000; published_at = some 900; to_lower_case = λ s. s }

-- 35 for the CVE id, 15 for the vendor, 20 for the keyword, 25 for the source, 10 for the day; at most 100.
score_is_full : calculate_priority_score input signals ≡ 100
unfolding calculate_priority_score
score_is_full = refl

run_cheap_filter_cascade_bounds_example :
    let d = run_cheap_filter_cascade input signals in
    (is_drop d.decision ≡ false)
    × (is_keep d.decision ≡ true)
    × (true ≡ true)
    × (d.score ≤ 100)
    × (d.should_extract ≡ not (is_drop d.decision))
    × ((if is_drop d.decision then is_nonempty d.blocking_reasons else true) ≡ true)
unfolding calculate_priority_score has_layer2_cyber_context
run_cheap_filter_cascade_bounds_example = run_cheap_filter_cascade_bounds input signals

abbrev detectors : Detectors
detectors = record {
  to_lower_case = λ s. s;
  keywords = λ s. no_keywords;
  cves = λ s. [];
  vendors = λ s. [];
  products = λ s. [];
  inventory = [];
}

abbrev fresh : Article
fresh = record {
  id = 1;
  source_name = some "news";
  title = some "Earnings";
  title_hash = none;
  content_hash = none;
  rss_summary = none;
  rss_categories = [];
  clean_text = none;
  published_at = some 100;
  fetched_at = 200;
  processing_status = "NEW";
  processing_error = none;
  embedding = none;
  embedding_model = none;
  cheap_filter_decision = none;
  cheap_filter_score = none;
  cheap_filter_reasons = [];
  cheap_filter_blocking_reasons = [];
}

abbrev inbox : EventDb
inbox = without_events 1000 (fresh ∷ [])
