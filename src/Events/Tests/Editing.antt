-- ===== src/Events/Tests/Editing.antt =====
-- What analysts do in the newsroom.
use ai_event_intelligence_ag.Base.{
  ◌+◌, ◌-◌, ◌≤◌, ◌≡◌, refl, ◌++◌, true, false, some, List, [], ◌∷◌, length, min,
}
use ai_event_intelligence_ag.Events.Records.{draft, returned}
use ai_event_intelligence_ag.Events.Editorial.{
  approve_event, create_event_from_articles, distinct_ids, move_article_between_events,
  unpublish_event,
}
use ai_event_intelligence_ag.Events.Links.{has_event, has_article, is_member}
use ai_event_intelligence_ag.Events.Moves.{move_article_between_events-is_member, tables}
use ai_event_intelligence_ag.Events.Creation.{create_event_from_articles-is_member, is_returned}
use ai_event_intelligence_ag.Events.Queues.{
  list_for_workspace_page, list_workspace_events_page, needs_triage, pos,
}
use ai_event_intelligence_ag.Events.Pages.{list_workspace_events_page-bounds}
use ai_event_intelligence_ag.Events.Triage.{
  approve_event-needs_triage, unpublish_event-needs_triage,
}
use ai_event_intelligence_ag.Events.Memberships.{
  EditorialCommand, IsViewOf, Memberships, attach_of, create_of, detach_of, execute_all, move_of,
  specified_all,
}
use ai_event_intelligence_ag.Events.Refinement.{execute_all-IsViewOf}
use ai_event_intelligence_ag.Events.Tests.{asked, newsroom}

move_article_between_events-is_member_example :
    ((move_article_between_events newsroom 1 1 2).1 ≡ returned tt)
    × (is_member (move_article_between_events newsroom 1 1 2).0 2 1 ≡ true)
    × (tables newsroom ≡ tables newsroom)
move_article_between_events-is_member_example =
    move_article_between_events-is_member newsroom 1 1 2 2 1

create_event_from_articles-is_member_example :
    (is_returned (create_event_from_articles newsroom asked).1 ≡ true)
    × (is_member (create_event_from_articles newsroom asked).0 3 1 ≡ true)
    × (tables newsroom ≡ tables newsroom)
unfolding distinct_ids
create_event_from_articles-is_member_example =
    create_event_from_articles-is_member newsroom asked 3 1

approve_event-needs_triage_example :
    (is_returned (approve_event newsroom 1).1 ≡ true)
    × (needs_triage (approve_event newsroom 1).0 1 ≡ false)
    × (newsroom ≡ newsroom)
approve_event-needs_triage_example = approve_event-needs_triage newsroom 1 1

unpublish_event-needs_triage_example :
    (is_returned (unpublish_event newsroom 2).1 ≡ true)
    × (needs_triage (unpublish_event newsroom 2).0 1 ≡ true)
unpublish_event-needs_triage_example = unpublish_event-needs_triage newsroom 2 1

list_workspace_events_page-bounds_example :
    let page = list_workspace_events_page newsroom draft (some (pos 0)) (some (pos 1)) in
    (1 ≤ page.limit)
    × (page.limit ≤ 100)
    × (length page.items ≡ min page.limit (page.total - page.offset))
    × (page.items ++ list_for_workspace_page newsroom draft 5 (page.offset + page.limit)
        ≡ list_for_workspace_page newsroom draft (page.limit + 5) page.offset)
list_workspace_events_page-bounds_example =
    list_workspace_events_page-bounds newsroom draft (some (pos 0)) (some (pos 1)) 5

abbrev seen : Memberships
seen = record {
  next = 3;
  events = has_event newsroom;
  articles = has_article newsroom;
  member = is_member newsroom;
}

abbrev edits : List EditorialCommand
edits = create_of asked ∷ move_of 1 1 2 ∷ detach_of 1 1 ∷ attach_of 1 2 ∷ []

execute_all-IsViewOf_example :
    ((execute_all newsroom edits).1 ≡ (true ∷ true ∷ false ∷ true ∷ []))
    × IsViewOf (specified_all seen edits).0 (execute_all newsroom edits).0
unfolding distinct_ids
execute_all-IsViewOf_example =
    execute_all-IsViewOf seen newsroom edits
      (record { next = refl; events = λ e. refl; articles = λ a. refl; member = λ e a. refl })
