-- ===== src/Events/Queues.antt =====
-- The queries of src/db/repositories/event.repository.ts and of src/db/repositories/article.repository.ts
-- that list rows, and the pages and counts of src/events/event-editorial.ts. The rows come in the order
-- of ORDER BY; where that leaves two rows open, the one stored last comes first.
use ai_event_intelligence_ag.Base.{
  ℕ, ◌==◌, String, Bool, true, false, not, ◌&&◌, ◌||◌, Option, none, some, List, if◌then◌else◌,
  ◌or_else◌, ltb, leb, str_eq, length, keep, any, head?, min, max,
}
use ai_event_intelligence_ag.Base.Sort.{sort, take, drop}
use ai_event_intelligence_ag.Events.Records.{
  Article, CyberEvent, EventArticle, EventDb, PublicationStatus, draft, approved, is_approved,
}

-- time DESC NULLS LAST, id DESC
abbrev pub newest_first : Option ℕ → ℕ → Option ℕ → ℕ → Bool
newest_first none i none j = leb j i
newest_first none i (some t) j = false
newest_first (some s) i none j = true
newest_first (some s) i (some t) j = ltb t s || (s == t && leb j i)

-- last_seen_at DESC NULLS LAST, id DESC
abbrev pub seen_before : CyberEvent → CyberEvent → Bool
seen_before d e = newest_first d.last_seen_at d.id e.last_seen_at e.id

abbrev pub is_open : CyberEvent → Bool
is_open e = str_eq e.event_status "open"

abbrev pub has_text : String → Option String → Bool
has_text s none = false
has_text s (some t) = str_eq t s

-- `findOpenByGroupingKey`
unfoldable pub find_open_by_grouping_key : EventDb → String → Option CyberEvent
find_open_by_grouping_key db key =
    head? (sort seen_before (keep (λ e. has_text key e.grouping_key && is_open e) db.events))

abbrev pub has_status : PublicationStatus → CyberEvent → Bool
has_status approved e = is_approved e.publication_status
has_status draft e = not (is_approved e.publication_status)

-- `countForWorkspace`
unfoldable pub count_for_workspace : EventDb → PublicationStatus → ℕ
count_for_workspace db status = length (keep (has_status status) db.events)

-- `listForWorkspacePage`
unfoldable pub list_for_workspace_page : EventDb → PublicationStatus → ℕ → ℕ → List CyberEvent
list_for_workspace_page db status limit offset =
    take limit (drop offset (sort seen_before (keep (has_status status) db.events)))

-- `listAlertCandidates`
unfoldable pub list_alert_candidates : EventDb → ℕ → List CyberEvent
list_alert_candidates db limit =
    take limit (sort seen_before (keep (λ e. is_open e && ltb 0 e.source_count) db.events))

abbrev pub published_before : Article → Article → Bool
published_before a b = newest_first a.published_at a.id b.published_at b.id

-- The JOIN of TRIAGE_WHERE, for one link.
abbrev pub joins_approved : List CyberEvent → ℕ → EventArticle → Bool
joins_approved events article_id l =
    l.article_id == article_id
    && any (λ (e : CyberEvent). e.id == l.event_id && is_approved e.publication_status) events

-- `TRIAGE_WHERE`: the article is in no approved event.
abbrev pub needs_triage : EventDb → ℕ → Bool
needs_triage db article_id = not (any (joins_approved db.events article_id) db.event_articles)

-- `countArticlesNeedingTriage`
unfoldable pub count_articles_needing_triage : EventDb → ℕ
count_articles_needing_triage db = length (keep (λ (a : Article). needs_triage db a.id) db.articles)

-- `listArticlesNeedingTriage`
unfoldable pub list_articles_needing_triage : EventDb → ℕ → ℕ → List Article
list_articles_needing_triage db limit offset =
    take limit (
      drop offset
        (sort published_before (keep (λ (a : Article). needs_triage db a.id) db.articles)))

-- published_at DESC NULLS LAST, fetched_at DESC, id DESC
abbrev pub queued_before : Article → Article → Bool
queued_before a b =
    if newest_first a.published_at 0 b.published_at 0
    then if newest_first b.published_at 0 a.published_at 0
      then newest_first (some a.fetched_at) a.id (some b.fetched_at) b.id
      else true
    else false

-- `listByProcessingStatus`
unfoldable pub list_by_processing_status : EventDb → String → ℕ → List Article
list_by_processing_status db status limit =
    take limit (sort queued_before (keep (λ a. str_eq a.processing_status status) db.articles))

-- A number that a caller asks for: a page may be asked for with a negative one.
pub data ℤ : Type 0 where
  pos negsuc : ℕ → ℤ

-- Math.max(least, Math.min(n, most)) for natural bounds
abbrev pub clamped : ℕ → ℕ → ℤ → ℕ
clamped least most (pos n) = max least (min n most)
clamped least most (negsuc n) = least

abbrev pub not_negative : ℤ → ℕ
not_negative (pos n) = n
not_negative (negsuc n) = 0

-- `normalizePageOptions`
unfoldable pub normalize_page_options : Option ℤ → Option ℤ → ℕ × ℕ
normalize_page_options limit offset =
    (clamped 1 100 (limit or_else pos 25), not_negative (offset or_else pos 0))

pub record WorkspacePage : Type 0 where
  pub items : List CyberEvent
  pub total : ℕ
  pub limit : ℕ
  pub offset : ℕ

-- `listWorkspaceEventsPage`
unfoldable pub list_workspace_events_page :
    EventDb → PublicationStatus → Option ℤ → Option ℤ → WorkspacePage
list_workspace_events_page db status limit offset =
    let (size, start) = normalize_page_options limit offset in
    record {
      items = list_for_workspace_page db status size start;
      total = count_for_workspace db status;
      limit = size;
      offset = start;
    }

pub record WorkspaceQueueCounts : Type 0 where
  pub triage : ℕ
  pub drafts : ℕ
  pub approved_events : ℕ

-- `getWorkspaceQueueCounts`
unfoldable pub get_workspace_queue_counts : EventDb → WorkspaceQueueCounts
get_workspace_queue_counts db = record {
  triage = count_articles_needing_triage db;
  drafts = count_for_workspace db draft;
  approved_events = count_for_workspace db approved;
}
