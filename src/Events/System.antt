-- ===== src/Events/System.antt =====
-- What the analyst's operations (src/events/event-editorial.ts) and the stages of the pipeline
-- (src/pipeline/event-stage.ts, src/pipeline/alert-stage.ts, src/pipeline/classification-stage.ts) can do to
-- the tables of events, in any order. The other stages appear by what they write: articles arrive and have
-- their rows rewritten and none is removed, and the texts and vectors of an event are rewritten, but neither
-- its id nor its count.
use ai_event_intelligence_ag.Base.{
  ℕ, ◌≡◌, refl, false, List, [], ◌∷◌, inl, inr, Bool-cases, Option-cases, length, true, is_some,
}
use ai_event_intelligence_ag.Base.Table.{All-mono, find_by}
use ai_event_intelligence_ag.Alerts.Stage.{
  AlertSettings, AlertStageResult, run_alert_stage, alert_turns, alert_turn, create_alert,
  decide_event, count_decision, no_alerts,
}
use ai_event_intelligence_ag.Events.Records.{
  Article, CyberEvent, EventDb, PublicationStatus, draft, approved, event_key, article_key,
}
use ai_event_intelligence_ag.Events.Store.{
  EventAssessment, EventFields, find_event, set_publication_status, update_event_assessment,
  update_event_fields, update_returning, set_event,
}
use ai_event_intelligence_ag.Events.Editorial.{
  CreateEventFromArticlesInput, analyst_link, approve_event, attach_article_to_event,
  create_event_from_articles, detach_article_from_event, is_named, move_article_between_events,
  unpublish_event,
}
use ai_event_intelligence_ag.Events.Consistency.{IsConsistent, IsReferred, set_event-IsConsistent}
use ai_event_intelligence_ag.Events.Membership.{
  attach_article-IsConsistent, detach_article-IsConsistent,
}
use ai_event_intelligence_ag.Events.Atomicity.{
  create_event_from_articles-IsConsistent, move_article_between_events-IsConsistent,
}
use ai_event_intelligence_ag.Events.Queues.{list_alert_candidates}
use ai_event_intelligence_ag.Events.Stage.{Grouping, run_event_stage}
use ai_event_intelligence_ag.Events.Stage.Run.{run_event_stage-IsConsistent}

-- One operation on the tables, or the passing of time.
pub data EventStep : EventDb → EventDb → Type 0 where
  wait : (db : EventDb) (time : ℕ) → EventStep db (record db { now = time })
  create_from :
      (db : EventDb) (i : CreateEventFromArticlesInput)
      → EventStep db (create_event_from_articles db i).0
  attach_to :
      (db : EventDb) (event_id article_id : ℕ)
      → EventStep db (attach_article_to_event db event_id article_id).0
  detach_from :
      (db : EventDb) (event_id article_id : ℕ)
      → EventStep db (detach_article_from_event db event_id article_id).0
  move_between :
      (db : EventDb) (article_id from to : ℕ)
      → EventStep db (move_article_between_events db article_id from to).0
  approve : (db : EventDb) (event_id : ℕ) → EventStep db (approve_event db event_id).0
  unpublish : (db : EventDb) (event_id : ℕ) → EventStep db (unpublish_event db event_id).0
  edit :
      (db : EventDb) (event_id : ℕ) (fields : EventFields)
      → EventStep db (update_event_fields db event_id fields).0
  assess :
      (db : EventDb) (event_id : ℕ) (assessment : EventAssessment)
      → EventStep db (update_event_assessment db event_id assessment)
  group_one :
      (g : Grouping) (db : EventDb) (limit : ℕ) → EventStep db (run_event_stage g db limit).0.db
  alert_all :
      (settings : AlertSettings) (db : EventDb) (limit : ℕ)
      → EventStep db (run_alert_stage settings db limit).0
  rewrite_articles :
      (db : EventDb) (articles : List Article)
      → ((k : ℕ)
          → is_some (find_by article_key k db.articles) ≡ true
          → is_some (find_by article_key k articles) ≡ true)
      → EventStep db (record db { articles = articles })
  rewrite_event :
      (db : EventDb) (event_id : ℕ) (f : CyberEvent → CyberEvent)
      → ((e : CyberEvent) → event_key (f e) ≡ event_key e)
      → ((e : CyberEvent) → (f e).source_count ≡ e.source_count)
      → EventStep db (set_event event_id f db)

-- The states that steps lead to.
pub data EventReach (start : EventDb) : EventDb → Type 0 where
  begin : EventReach start start
  and_then :
      {db after : EventDb} → EventReach start db → EventStep db after → EventReach start after

-- Tables with articles and nothing else.
abbrev pub without_events : ℕ → List Article → EventDb
without_events now articles = record {
  now = now;
  next_event_id = 1;
  next_link_id = 1;
  next_alert_id = 1;
  articles = articles;
  events = [];
  event_articles = [];
  alerts = [];
}

update_returning-IsConsistent :
    (db : EventDb) (event_id : ℕ) (f : CyberEvent → CyberEvent)
    → ((e : CyberEvent) → event_key (f e) ≡ event_key e)
    → ((e : CyberEvent) → (f e).source_count ≡ e.source_count)
    → IsConsistent db
    → IsConsistent (update_returning db event_id f).0
update_returning-IsConsistent db event_id f keeps counts c =
    elim (Option-cases (find_event db event_id)) [
      | inl absent ↦ rw (absent, update_returning) c
      | inr (e, here) ↦
          rw (here, update_returning) (set_event-IsConsistent db event_id f keeps counts c)
    ]

set_publication_status-IsConsistent :
    (db : EventDb) (event_id : ℕ) (status : PublicationStatus)
    → IsConsistent db
    → IsConsistent (set_publication_status db event_id status).0
unfolding set_publication_status
set_publication_status-IsConsistent db event_id status c =
    update_returning-IsConsistent db event_id _ (λ e. refl) (λ e. refl) c

update_event_fields-IsConsistent :
    (db : EventDb) (event_id : ℕ) (fields : EventFields)
    → IsConsistent db
    → IsConsistent (update_event_fields db event_id fields).0
unfolding update_event_fields
update_event_fields-IsConsistent db event_id fields c =
    update_returning-IsConsistent db event_id _ (λ e. refl) (λ e. refl) c

update_event_assessment-IsConsistent :
    (db : EventDb) (event_id : ℕ) (assessment : EventAssessment)
    → IsConsistent db
    → IsConsistent (update_event_assessment db event_id assessment)
unfolding update_event_assessment
update_event_assessment-IsConsistent db event_id assessment c =
    set_event-IsConsistent db event_id _ (λ e. refl) (λ e. refl) c

approve_event-IsConsistent :
    (db : EventDb) (event_id : ℕ) → IsConsistent db → IsConsistent (approve_event db event_id).0
unfolding approve_event
approve_event-IsConsistent db event_id c = elim (Option-cases (find_event db event_id)) [
  | inl absent ↦ rw (absent, approve_event) c
  | inr (e, here) ↦ elim (Bool-cases (is_named e)) [
    | inl named ↦
        rw (here, approve_event) rw (named)
          (set_publication_status-IsConsistent db event_id approved c)
    | inr unnamed ↦ rw (here, approve_event) rw (unnamed) c
  ]
]

alert_turns-IsConsistent :
    (settings : AlertSettings) (db : EventDb) (events : List CyberEvent) (r : AlertStageResult)
    → IsConsistent db
    → IsConsistent (alert_turns settings db events r).0
unfolding alert_turns alert_turn create_alert
alert_turns-IsConsistent settings db [] r c = c
alert_turns-IsConsistent settings db (e ∷ rest) r c =
    alert_turns-IsConsistent settings (alert_turn settings db e) rest
      (count_decision (decide_event settings db e) r)
      (record { fresh = c.fresh; counted = c.counted; unique = c.unique; referred = c.referred })

EventStep-IsConsistent :
    {db after : EventDb} → EventStep db after → IsConsistent db → IsConsistent after
unfolding attach_article_to_event detach_article_from_event unpublish_event run_alert_stage
EventStep-IsConsistent (wait db time) c = record {
  fresh = c.fresh;
  counted = c.counted;
  unique = c.unique;
  referred = c.referred;
}
EventStep-IsConsistent (create_from db i) c = create_event_from_articles-IsConsistent db i c
EventStep-IsConsistent (attach_to db event_id article_id) c =
    attach_article-IsConsistent db (analyst_link event_id article_id false) c
EventStep-IsConsistent (detach_from db event_id article_id) c =
    detach_article-IsConsistent db event_id article_id c
EventStep-IsConsistent (move_between db article_id from to) c =
    move_article_between_events-IsConsistent db article_id from to c
EventStep-IsConsistent (approve db event_id) c = approve_event-IsConsistent db event_id c
EventStep-IsConsistent (unpublish db event_id) c =
    set_publication_status-IsConsistent db event_id draft c
EventStep-IsConsistent (edit db event_id fields) c =
    update_event_fields-IsConsistent db event_id fields c
EventStep-IsConsistent (assess db event_id assessment) c =
    update_event_assessment-IsConsistent db event_id assessment c
EventStep-IsConsistent (group_one g db limit) c = run_event_stage-IsConsistent g db limit c
EventStep-IsConsistent (alert_all settings db limit) c =
    alert_turns-IsConsistent settings db (list_alert_candidates db limit)
      (no_alerts (length (list_alert_candidates db limit))) c
EventStep-IsConsistent (rewrite_articles db articles keeps) c = record {
  fresh = c.fresh;
  counted = c.counted;
  unique = c.unique;
  referred =
      All-mono (IsReferred db.events db.articles) (IsReferred db.events articles) db.event_articles
        (λ l h. (h.0, keeps l.article_id h.1)) c.referred;
}
EventStep-IsConsistent (rewrite_event db event_id f keeps counts) c =
    set_event-IsConsistent db event_id f keeps counts c

-- In every state that these steps lead to, in any order, from tables that hold articles only (analysts'
-- operations, the event stage, the alert stage, assessments, rewrites of the article table that remove no
-- article, and rewrites of an event that keep its id and its count): the source count of each event is the
-- number of its articles, no article is linked twice to one event, each link's event and article exist, and
-- the next event id is unused.
pub reachable_events-IsConsistent :
    (now : ℕ) (articles : List Article) (db : EventDb)
    → EventReach (without_events now articles) db
    → IsConsistent db
reachable_events-IsConsistent now articles _ begin = record {
  fresh = tt;
  counted = tt;
  unique = tt;
  referred = tt;
}
reachable_events-IsConsistent now articles _ (and_then before step) =
    EventStep-IsConsistent step (reachable_events-IsConsistent now articles _ before)
