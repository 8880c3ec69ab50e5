-- ===== src/Events/Tests.antt =====
-- A small newsroom: two articles that are embedded and two events, of which one has the first article.
mod Editing
mod Pipeline
use ai_event_intelligence_ag.Base.{◌-◌, refl, true, false, none, some, [], ◌∷◌, arith}
use ai_event_intelligence_ag.Events.Records.{Article, CyberEvent, EventDb, draft}
use ai_event_intelligence_ag.Events.Editorial.{CreateEventFromArticlesInput}
use ai_event_intelligence_ag.Events.Consistency.{IsConsistent}
use ai_event_intelligence_ag.Events.Grouping.{same_event}
use ai_event_intelligence_ag.Events.System.{without_events}

abbrev pub first_article : Article
first_article = record {
  id = 1;
  source_name = none;
  title = some "  Acme gateway exploited ";
  title_hash = none;
  content_hash = none;
  rss_summary = none;
  rss_categories = [];
  clean_text = some "Acme confirms exploitation.";
  published_at = some 500;
  fetched_at = 600;
  processing_status = "EMBEDDED";
  processing_error = none;
  embedding = some "[0,1]";
  embedding_model = some "m/2";
  cheap_filter_decision = none;
  cheap_filter_score = none;
  cheap_filter_reasons = [];
  cheap_filter_blocking_reasons = [];
}

abbrev pub second_article : Article
second_article = record first_article { id = 2; title = none; published_at = some 700 }

abbrev pub asked : CreateEventFromArticlesInput
asked = record {
  article_ids = some 2 ∷ none ∷ some 1 ∷ some 2 ∷ [];
  event_title = none;
  event_summary = none;
  severity = some "high";
  urgency = some "P2";
  affected_vendors = "Acme" ∷ [];
  affected_products = [];
  cves = [];
  attack_types = [];
}

abbrev pub empty_newsroom : EventDb
empty_newsroom = without_events 1000 (first_article ∷ second_article ∷ [])

abbrev pub breach : CyberEvent
breach = record {
  id = 1;
  grouping_key = some "acme";
  event_title = some "Acme";
  event_summary = none;
  event_status = "open";
  publication_status = draft;
  severity = some "high";
  urgency = some "P2";
  confidence = some 600000000;
  first_seen_at = some 900;
  last_seen_at = some 900;
  affected_vendors = "Acme" ∷ [];
  affected_products = [];
  cves = [];
  attack_types = [];
  source_count = 1;
  summary_stale = false;
  event_embedding = some "[0,2]";
  event_embedding_model = some "m/2";
  event_embedding_retry_count = 0;
  event_embedding_error = none;
  updated_at = 900;
}

abbrev rumour : CyberEvent
rumour = record breach {
  id = 2;
  grouping_key = none;
  source_count = 0;
  affected_vendors = [];
  event_embedding = none;
  event_embedding_model = none;
}

abbrev pub newsroom : EventDb
newsroom = record empty_newsroom {
  next_event_id = 3;
  next_link_id = 2;
  articles = record first_article { processing_status = "GROUPED" } ∷ second_article ∷ [];
  events = breach ∷ rumour ∷ [];
  event_articles =
      record {
        id = 1;
        event_id = 1;
        article_id = 1;
        relationship = "same_event";
        confidence = some 600000000;
        is_primary_source = true;
        is_material_update = false;
        created_at = 900;
      }
      ∷ [];
}

pub newsroom-IsConsistent : IsConsistent newsroom
newsroom-IsConsistent = record {
  fresh = (omega arith, (omega arith, tt));
  counted = (refl, (refl, tt));
  unique = (refl, tt);
  referred = ((refl, refl), tt);
}
