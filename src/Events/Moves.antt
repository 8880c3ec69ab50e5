-- ===== src/Events/Moves.antt =====
-- Transactions of src/events/event-editorial.ts, and the move of an article from an event to another.
use ai_event_intelligence_ag.Base.{
  ℕ, ◌≡◌, refl, ◌==◌, Bool, false, not, ◌&&◌, ◌||◌, List, arith, if◌then◌else◌,
}
use ai_event_intelligence_ag.Events.Records.{
  Article, AlertRow, CyberEvent, EventArticle, EventDb, EventError, Outcome, returned, thrown,
  not_attached, foreign_key_violation, same_events,
}
use ai_event_intelligence_ag.Events.Store.{detach_article}
use ai_event_intelligence_ag.Events.Links.{
  is_member, can_attach, attach_article-returned, attach_article-is_member, detach_article-returned,
  detach_article-is_member, detach_article-has_event, detach_article-has_article,
}
use ai_event_intelligence_ag.Events.Editorial.{
  with_transaction, move_article_between_events, analyst_link,
}

-- All rows of the database.
abbrev pub tables : EventDb → List Article × List CyberEvent × List EventArticle × List AlertRow
tables db = (db.articles, db.events, db.event_articles, db.alerts)

pub with_transaction-returned :
    {A : Type 0} (db : EventDb) (work : EventDb → EventDb × Outcome A) (x : A)
    → (work db).1 ≡ returned x
    → with_transaction db work ≡ ((work db).0, returned x)
unfolding with_transaction
with_transaction-returned db work x h = rw (h, with_transaction) refl

pub with_transaction-thrown :
    {A : Type 0} (db : EventDb) (work : EventDb → EventDb × Outcome A) (e : EventError)
    → (work db).1 ≡ thrown e
    → (tables (with_transaction db work).0 ≡ tables db) × ((with_transaction db work).1 ≡ thrown e)
unfolding with_transaction
with_transaction-thrown db work e h = rw (h, with_transaction) (refl, refl)

-- The condition under which an article can be moved.
abbrev pub can_move : EventDb → ℕ → ℕ → ℕ → Bool
can_move db article_id from to =
    not (from == to) && is_member db from article_id && can_attach db to article_id

-- A move of an article between two events throws if the two are one, if the article does not belong to
-- the first, or if the second neither has the article nor exists with it; all tables are then as they were,
-- although the article was already detached when the attachment failed. Otherwise the article belongs to
-- the second event and not to the first, and every other membership is as it was.
pub move_article_between_events-is_member :
    (db : EventDb) (article_id from to e b : ℕ)
    → let moved = move_article_between_events db article_id from to in
      let can = can_move db article_id from to in
      (moved.1 ≡ (
        if from == to
        then thrown same_events
        else if is_member db from article_id
        then if can_attach db to article_id then returned tt else thrown foreign_key_violation
        else thrown (not_attached from article_id)))
      × (is_member moved.0 e b ≡ (
          if can
          then not (from == e && article_id == b)
            && (is_member db e b || (to == e && article_id == b))
          else is_member db e b))
      × ((if can then tables db else tables moved.0) ≡ tables db)
unfolding move_article_between_events with_transaction
move_article_between_events-is_member db article_id from to e b = ground (
  arith,
  detach_article-returned db from article_id,
  detach_article-is_member db from article_id e b,
  detach_article-is_member db from article_id to article_id,
  detach_article-has_event db from article_id to,
  detach_article-has_article db from article_id article_id,
  attach_article-returned (detach_article db from article_id).0 (analyst_link to article_id false),
  attach_article-is_member (detach_article db from article_id).0 (analyst_link to article_id false)
      e b,
)
