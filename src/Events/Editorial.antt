-- ===== src/Events/Editorial.antt =====
-- src/events/event-editorial.ts: what an analyst does with an event and with its articles.
use ai_event_intelligence_ag.Base.{
  ℕ, ◌==◌, String, Bool, true, false, Option, none, some, List, [], ◌∷◌, if◌then◌else◌, any,
}
use ai_event_intelligence_ag.Base.Text.{trimmed_or}
use ai_event_intelligence_ag.Events.Records.{
  Article, CyberEvent, EventDb, Outcome, approved, draft, returned, thrown, event_not_found,
  article_not_found, no_vendor_or_product, no_articles, same_events,
}
use ai_event_intelligence_ag.Events.Store.{
  CreateEventInput, AttachInput, create_event, find_event, find_article, set_publication_status,
  attach_article, detach_article,
}

-- ROLLBACK: the tables are as they were; the sequences keep what was drawn from them.
abbrev pub rolled_back : EventDb → EventDb → EventDb
rolled_back before after = record before {
  next_event_id = after.next_event_id;
  next_link_id = after.next_link_id;
  next_alert_id = after.next_alert_id;
}

-- `withTransaction`: BEGIN, the work, and COMMIT where it returned or ROLLBACK where it threw.
unfoldable pub with_transaction :
    {A : Type 0} → EventDb → (EventDb → EventDb × Outcome A) → EventDb × Outcome A
with_transaction db work =
    let (after, outcome) = work db in
    elim outcome [ returned x ↦ (after, returned x) | thrown e ↦ (rolled_back db after, thrown e) ]

abbrev pub is_named : CyberEvent → Bool
is_named e = elim e.affected_vendors [
  | _ ∷ _ ↦ true
  | [] ↦ elim e.affected_products [ _ ∷ _ ↦ true | [] ↦ false ]
]

-- `approveEvent`
unfoldable pub approve_event : EventDb → ℕ → EventDb × Outcome CyberEvent
approve_event db event_id = elim (find_event db event_id) [
  | none ↦ (db, thrown (event_not_found event_id))
  | some e ↦
      if is_named e
      then set_publication_status db event_id approved
      else (db, thrown no_vendor_or_product)
]

-- `unpublishEvent`
unfoldable pub unpublish_event : EventDb → ℕ → EventDb × Outcome CyberEvent
unpublish_event db event_id = set_publication_status db event_id draft

abbrev pub analyst_link : ℕ → ℕ → Bool → AttachInput
analyst_link event_id article_id primary = record {
  event_id = event_id;
  article_id = article_id;
  relationship = "analyst_membership";
  confidence = some 1000000000;
  is_primary_source = primary;
  is_material_update = false;
}

-- `CreateEventFromArticlesInput`: an article id that is the empty text is `none`.
pub record CreateEventFromArticlesInput : Type 0 where
  pub article_ids : List (Option ℕ)
  pub event_title : Option String
  pub event_summary : Option String
  pub severity : Option String
  pub urgency : Option String
  pub affected_vendors : List String
  pub affected_products : List String
  pub cves : List String
  pub attack_types : List String

-- `[...new Set(ids.filter(Boolean))]`
unfoldable pub distinct_ids : List ℕ → List (Option ℕ) → List ℕ
distinct_ids seen [] = []
distinct_ids seen (none ∷ ids) = distinct_ids seen ids
distinct_ids seen (some a ∷ ids) = elim (any (λ b. b == a) seen) [
  | true ↦ distinct_ids seen ids
  | false ↦ a ∷ distinct_ids (a ∷ seen) ids
]

-- `findByIds`: the articles in the order of the ids, or the error for the first that is not there.
unfoldable pub find_by_ids : EventDb → List ℕ → Outcome (List Article)
find_by_ids db [] = returned []
find_by_ids db (a ∷ ids) = elim (find_article db a) [
  | none ↦ thrown (article_not_found a)
  | some found ↦ elim (find_by_ids db ids) [
    | thrown e ↦ thrown e
    | returned more ↦ returned (found ∷ more)
  ]
]

abbrev pub first_title : List Article → Option String
first_title [] = none
first_title (a ∷ _) = a.title

abbrev pub editorial_input : CreateEventFromArticlesInput → List Article → CreateEventInput
editorial_input i articles = record {
  event_title = trimmed_or i.event_title (trimmed_or (first_title articles) "Untitled event");
  grouping_key = none;
  event_summary = i.event_summary;
  severity = i.severity;
  urgency = i.urgency;
  confidence = none;
  affected_vendors = i.affected_vendors;
  affected_products = i.affected_products;
  cves = i.cves;
  attack_types = i.attack_types;
}

-- The loop over the articles; the first of them is the primary source.
unfoldable pub attach_all : EventDb → ℕ → List Article → Bool → EventDb × Outcome Unit
attach_all db event_id [] primary = (db, returned tt)
attach_all db event_id (a ∷ rest) primary =
    let (next, outcome) = attach_article db (analyst_link event_id a.id primary) in
    elim outcome [ thrown e ↦ (next, thrown e) | returned _ ↦ attach_all next event_id rest false ]

-- The work of the transaction in `createEventFromArticles`.
unfoldable pub create_with_articles :
    CreateEventFromArticlesInput → List ℕ → EventDb → EventDb × Outcome CyberEvent
create_with_articles i ids db = elim (find_by_ids db ids) [
  | thrown e ↦ (db, thrown e)
  | returned articles ↦
      let (made, event) = create_event db (editorial_input i articles) in
      let (linked, outcome) = attach_all made event.id articles true in
      elim outcome [ thrown e ↦ (linked, thrown e) | returned _ ↦ (linked, returned event) ]
]

-- `createEventFromArticles`
unfoldable pub create_event_from_articles :
    EventDb → CreateEventFromArticlesInput → EventDb × Outcome CyberEvent
create_event_from_articles db i = elim (distinct_ids [] i.article_ids) [
  | [] ↦ (db, thrown no_articles)
  | a ∷ ids ↦ with_transaction db (create_with_articles i (a ∷ ids))
]

-- `attachArticleToEvent`
unfoldable pub attach_article_to_event : EventDb → ℕ → ℕ → EventDb × Outcome Unit
attach_article_to_event db event_id article_id =
    attach_article db (analyst_link event_id article_id false)

-- `detachArticleFromEvent`
unfoldable pub detach_article_from_event : EventDb → ℕ → ℕ → EventDb × Outcome Unit
detach_article_from_event db event_id article_id = detach_article db event_id article_id

-- The work of the transaction in `moveArticleBetweenEvents`.
abbrev pub move_work : ℕ → ℕ → ℕ → EventDb → EventDb × Outcome Unit
move_work article_id from to db =
    let (detached, outcome) = detach_article db from article_id in
    elim outcome [
      | thrown e ↦ (detached, thrown e)
      | returned _ ↦ attach_article detached (analyst_link to article_id false)
    ]

-- `moveArticleBetweenEvents`
unfoldable pub move_article_between_events : EventDb → ℕ → ℕ → ℕ → EventDb × Outcome Unit
move_article_between_events db article_id from to =
    if from == to
    then (db, thrown same_events)
    else with_transaction db (move_work article_id from to)
