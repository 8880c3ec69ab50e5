-- ===== src/Events/Pages.antt =====
-- The pages of the workspace: listWorkspaceEventsPage and getWorkspaceQueueCounts of
-- src/events/event-editorial.ts.
use ai_event_intelligence_ag.Base.{
  ℕ, ◌≡◌, ◌+◌, ◌-◌, ◌≤◌, Option, List, [], ◌∷◌, ◌++◌, arith, length, keep, min,
}
use ai_event_intelligence_ag.Base.Sort.{
  sort, drop, length-take, length-drop, length-sort, take-drop,
}
use ai_event_intelligence_ag.Events.Records.{
  CyberEvent, EventDb, PublicationStatus, draft, approved,
}
use ai_event_intelligence_ag.Events.Queues.{
  ℤ, list_workspace_events_page, list_for_workspace_page, count_for_workspace, has_status,
  seen_before, normalize_page_options, get_workspace_queue_counts,
}

clamped_bounds :
    (limit offset : Option ℤ)
    → (1 ≤ (normalize_page_options limit offset).0)
      × ((normalize_page_options limit offset).0 ≤ 100)
unfolding normalize_page_options
clamped_bounds limit offset = (ground arith, ground arith)

-- Whatever limit and offset are asked for, a page has between 1 and 100 places; it holds as many events
-- as there are from its offset on, if they fit, and followed by the page that starts where it ends, of any
-- length, it is the page of both lengths.
pub list_workspace_events_page-bounds :
    (db : EventDb) (status : PublicationStatus) (limit offset : Option ℤ) (more : ℕ)
    → let page = list_workspace_events_page db status limit offset in
      (1 ≤ page.limit)
      × (page.limit ≤ 100)
      × (length page.items ≡ min page.limit (page.total - page.offset))
      × (page.items ++ list_for_workspace_page db status more (page.offset + page.limit)
          ≡ list_for_workspace_page db status (page.limit + more) page.offset)
unfolding list_workspace_events_page list_for_workspace_page count_for_workspace
list_workspace_events_page-bounds db status limit offset more =
    let (size, start) = normalize_page_options limit offset in
    let rows = sort seen_before (keep (has_status status) db.events) in
    let (low, high) = clamped_bounds limit offset in
    (
      low,
      high,
      ground (
        arith,
        length-take size (drop start rows),
        length-drop start rows,
        length-sort seen_before (keep (has_status status) db.events),
      ),
      take-drop size more start rows,
    )

count_both :
    (events : List CyberEvent)
    → length (keep (has_status draft) events) + length (keep (has_status approved) events)
      ≡ length events
count_both [] = omega arith
count_both (e ∷ events) = ground (arith, count_both events)

-- Every event counts as a draft or as approved, never as both.
pub get_workspace_queue_counts-length :
    (db : EventDb)
    → (get_workspace_queue_counts db).drafts + (get_workspace_queue_counts db).approved_events
      ≡ length db.events
unfolding get_workspace_queue_counts count_for_workspace
get_workspace_queue_counts-length db = count_both db.events
