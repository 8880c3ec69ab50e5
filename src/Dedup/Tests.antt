-- ===== src/Dedup/Tests.antt =====
-- Two articles with one content hash, of which the earlier one is extracted first, and one article apart.
use ai_event_intelligence_ag.Base.{◌≡◌, ◌+◌, refl, true, none, some, [], ◌∷◌, leb, length}
use ai_event_intelligence_ag.Events.Records.{Article, EventDb}
use ai_event_intelligence_ag.Events.System.{without_events}
use ai_event_intelligence_ag.Dedup.{
  classify_article_dedup, dedup_candidates, exact_duplicate, find_earlier_by_content_hash,
  run_dedup_stage,
}
use ai_event_intelligence_ag.Dedup.Stories.{is_told}
use ai_event_intelligence_ag.Dedup.Survivors.{run_dedup_stage-is_told}

abbrev original : Article
original = record {
  id = 1;
  source_name = none;
  title = some "Acme breached";
  title_hash = some "t1";
  content_hash = some "c1";
  rss_summary = none;
  rss_categories = [];
  clean_text = none;
  published_at = some 100;
  fetched_at = 200;
  processing_status = "EXTRACTED";
  processing_error = none;
  embedding = none;
  embedding_model = none;
  cheap_filter_decision = none;
  cheap_filter_score = none;
  cheap_filter_reasons = [];
  cheap_filter_blocking_reasons = [];
}

abbrev copied : Article
copied = record original {
  id = 2;
  title_hash = some "t2";
  published_at = some 900;
  processing_status = "EMBEDDED";
}

abbrev apart : Article
apart = record original {
  id = 3;
  title_hash = none;
  content_hash = none;
  processing_status = "EXTRACTED";
}

abbrev archive : EventDb
archive = without_events 1000 (copied ∷ original ∷ apart ∷ [])

-- The earlier article is the one that is called a duplicate.
original_is_duplicate :
    classify_article_dedup archive original [] ≡ exact_duplicate 2 "matching_content_hash"
unfolding classify_article_dedup find_earlier_by_content_hash
original_is_duplicate = refl

run_dedup_stage-is_told_example :
    let (after, result) = run_dedup_stage (λ n. "id") archive 20 in
    (is_told (λ n. leb n 2) after.articles ≡ true)
    × (result.exact_duplicates + result.title_duplicates + result.semantic_candidates
          + result.unique_articles
        ≡ length (dedup_candidates archive 20))
run_dedup_stage-is_told_example =
    run_dedup_stage-is_told (λ n. "id") (λ n. leb n 2) archive 20 (refl, (refl, (refl, tt))) refl
