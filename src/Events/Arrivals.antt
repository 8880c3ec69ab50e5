-- ===== src/Events/Arrivals.antt =====
-- Which events and articles there are after createEventFromArticles and moveArticleBetweenEvents of
-- src/events/event-editorial.ts.
use ai_event_intelligence_ag.Base.{
  ℕ, ◌≡◌, ◌+◌, refl, ◌==◌, Bool, true, false, ◌&&◌, ◌||◌, List, [], ◌∷◌, arith, inl, inr,
  Bool-cases, List-cases, if◌then◌else◌, ==_refl,
}
use ai_event_intelligence_ag.Events.Records.{Article, EventDb}
use ai_event_intelligence_ag.Events.Store.{create_event, attach_article, detach_article}
use ai_event_intelligence_ag.Events.Links.{
  has_event, has_article, attach_article-has_event, attach_article-has_article,
  detach_article-has_event, detach_article-has_article,
}
use ai_event_intelligence_ag.Events.Editorial.{
  CreateEventFromArticlesInput, analyst_link, attach_all, create_event_from_articles,
  create_with_articles, distinct_ids, editorial_input, move_article_between_events,
  with_transaction,
}
use ai_event_intelligence_ag.Events.Creation.{
  all_exist, attach_all-returned, can_create, create_with_articles-is_member, find_by_ids-found,
  find_by_ids-missing,
}
use ai_event_intelligence_ag.Events.Atomicity.{
  attach_article-next_event_id, detach_article-next_event_id,
}

attach_all_arrivals :
    (db : EventDb) (event_id : ℕ) (articles : List Article) (primary : Bool) (k : ℕ)
    → let after = (attach_all db event_id articles primary).0 in
      (has_event after k ≡ has_event db k)
      × (has_article after k ≡ has_article db k)
      × (after.next_event_id ≡ db.next_event_id)
unfolding attach_all
attach_all_arrivals db event_id [] primary k = (refl, refl, refl)
attach_all_arrivals db event_id (a ∷ rest) primary k =
    let i = analyst_link event_id a.id primary in
    let (event, article, next) =
      attach_all_arrivals (attach_article db i).0 event_id rest false k in
    (
      ground (arith, event, attach_article-has_event db i k),
      ground (arith, article, attach_article-has_article db i k),
      ground (arith, next, attach_article-next_event_id db i),
    )

create_with_articles_arrivals :
    (db : EventDb) (i : CreateEventFromArticlesInput) (ids : List ℕ) (k : ℕ)
    → all_exist db ids ≡ true
    → let after = (create_with_articles i ids db).0 in
      (has_event after k ≡ (has_event db k || db.next_event_id == k))
      × (has_article after k ≡ has_article db k)
      × (after.next_event_id ≡ db.next_event_id + 1)
unfolding create_with_articles create_event
create_with_articles_arrivals db i ids k exist =
    let (articles, same, all, among) = find_by_ids-found db ids exist in
    let (made, event) = create_event db (editorial_input i articles) in
    let linked =
      attach_all-returned made db.next_event_id articles true
        (ground (arith, ==_refl db.next_event_id)) all in
    let (kept, articles_kept, next) = attach_all_arrivals made db.next_event_id articles true k in
    rw (same, create_with_articles)
      (
        ground (arith, linked, kept),
        ground (arith, linked, articles_kept),
        ground (arith, linked, next),
      )

pub create_event_from_articles_arrivals :
    (db : EventDb) (i : CreateEventFromArticlesInput) (k : ℕ)
    → let after = (create_event_from_articles db i).0 in
      let can = can_create db i in
      (has_event after k ≡ (has_event db k || (can && db.next_event_id == k)))
      × (has_article after k ≡ has_article db k)
      × (after.next_event_id ≡ (if can then db.next_event_id + 1 else db.next_event_id))
unfolding create_event_from_articles with_transaction create_with_articles
create_event_from_articles_arrivals db i k = elim (List-cases (distinct_ids [] i.article_ids)) [
  | inl none_named ↦ (ground arith, ground arith, ground arith)
  | inr (a, more, named) ↦ elim (Bool-cases (all_exist db (a ∷ more))) [
    | inl exist ↦
        let (event, article, next) = create_with_articles_arrivals db i (a ∷ more) k exist in
        let done = (create_with_articles-is_member db i (a ∷ more) k k exist).0 in
        (ground (arith, event, done), ground (arith, article, done), ground (arith, next, done))
    | inr missing ↦
        let (x, same, gone) = find_by_ids-missing db (a ∷ more) missing in
        (ground (arith, same), ground (arith, same), ground (arith, same))
  ]
]

pub move_article_between_events_arrivals :
    (db : EventDb) (article_id from to k : ℕ)
    → let after = (move_article_between_events db article_id from to).0 in
      (has_event after k ≡ has_event db k)
      × (has_article after k ≡ has_article db k)
      × (after.next_event_id ≡ db.next_event_id)
unfolding move_article_between_events with_transaction
move_article_between_events_arrivals db article_id from to k =
    let detached = (detach_article db from article_id).0 in
    let i = analyst_link to article_id false in
    (
      ground (
        arith,
        detach_article-has_event db from article_id k,
        attach_article-has_event detached i k,
      ),
      ground (
        arith,
        detach_article-has_article db from article_id k,
        attach_article-has_article detached i k,
      ),
      ground (
        arith,
        detach_article-next_event_id db from article_id,
        attach_article-next_event_id detached i,
      ),
    )
