-- ===== src/Events/Atomicity.antt =====
-- The transactions of src/events/event-editorial.ts keep the tables of events consistent, whether they
-- are committed or rolled back.
use ai_event_intelligence_ag.Base.{
  ℕ, ◌≡◌, ◌≤◌, refl, ◌∙◌, ◌⊎◌, ◌==◌, Bool, true, false, List, [], ◌∷◌, arith, inl, inr, Bool-cases,
  List-cases,
}
use ai_event_intelligence_ag.Base.Table.{Below}
use ai_event_intelligence_ag.Events.Records.{
  Article, CyberEvent, EventDb, EventError, Outcome, returned, thrown, event_key,
}
use ai_event_intelligence_ag.Events.Store.{
  AttachInput, attach_article, create_event, detach_article,
}
use ai_event_intelligence_ag.Events.Editorial.{
  CreateEventFromArticlesInput, analyst_link, attach_all, create_event_from_articles,
  create_with_articles, distinct_ids, editorial_input, find_by_ids, move_article_between_events,
  move_work, with_transaction,
}
use ai_event_intelligence_ag.Events.Consistency.{IsConsistent, create_event-IsConsistent}
use ai_event_intelligence_ag.Events.Membership.{
  attach_article-IsConsistent, detach_article-IsConsistent,
}

Outcome-cases :
    {A : Type 0} (o : Outcome A)
    → ((x : A) × (o ≡ returned x)) ⊎ ((e : EventError) × (o ≡ thrown e))
Outcome-cases (returned x) = inl (x, refl)
Outcome-cases (thrown e) = inr (e, refl)

below_grows :
    (n m : ℕ) (events : List CyberEvent)
    → n ≤ m
    → Below event_key n events
    → Below event_key m events
below_grows n m [] h below = tt
below_grows n m (e ∷ events) h below = (omega (arith, below.0), below_grows n m events h below.1)

-- A transaction that leaves consistent tables, and takes no event id back, is consistent either way.
with_transaction-IsConsistent :
    {A : Type 0} (db : EventDb) (work : EventDb → EventDb × Outcome A)
    → IsConsistent db
    → IsConsistent (work db).0
    → db.next_event_id ≤ (work db).0.next_event_id
    → IsConsistent (with_transaction db work).0
unfolding with_transaction
with_transaction-IsConsistent db work before after grows = elim (Outcome-cases (work db).1) [
  | inl (x, h) ↦ rw (h, with_transaction) after
  | inr (e, h) ↦
      rw (h, with_transaction)
        (record {
          fresh =
              below_grows db.next_event_id (work db).0.next_event_id db.events grows before.fresh;
          counted = before.counted;
          unique = before.unique;
          referred = before.referred;
        })
]

pub attach_article-next_event_id :
    (db : EventDb) (i : AttachInput) → (attach_article db i).0.next_event_id ≡ db.next_event_id
unfolding attach_article
attach_article-next_event_id db i = ground arith

pub detach_article-next_event_id :
    (db : EventDb) (event_id article_id : ℕ)
    → (detach_article db event_id article_id).0.next_event_id ≡ db.next_event_id
unfolding detach_article
detach_article-next_event_id db event_id article_id = ground arith

attach_all-IsConsistent :
    (db : EventDb) (event_id : ℕ) (articles : List Article) (primary : Bool)
    → IsConsistent db
    → IsConsistent (attach_all db event_id articles primary).0
      × ((attach_all db event_id articles primary).0.next_event_id ≡ db.next_event_id)
unfolding attach_all
attach_all-IsConsistent db event_id [] primary c = (c, refl)
attach_all-IsConsistent db event_id (a ∷ rest) primary c =
    let i = analyst_link event_id a.id primary in
    let first = attach_article-IsConsistent db i c in
    let same = attach_article-next_event_id db i in
    elim (Outcome-cases (attach_article db i).1) [
      | inr (e, h) ↦ rw (h, attach_all) (first, same)
      | inl (x, h) ↦
          let (later, still) =
            attach_all-IsConsistent (attach_article db i).0 event_id rest false first in
          rw (h, attach_all) (later, still ∙ same)
    ]

create_with_articles-IsConsistent :
    (db : EventDb) (i : CreateEventFromArticlesInput) (ids : List ℕ)
    → IsConsistent db
    → IsConsistent (create_with_articles i ids db).0
      × (db.next_event_id ≤ (create_with_articles i ids db).0.next_event_id)
unfolding create_with_articles create_event
create_with_articles-IsConsistent db i ids c = elim (Outcome-cases (find_by_ids db ids)) [
  | inr (e, h) ↦ rw (h, create_with_articles) (c, omega arith)
  | inl (articles, h) ↦
      let (made, event) = create_event db (editorial_input i articles) in
      let (linked, same) =
        attach_all-IsConsistent made event.id articles true
          (create_event-IsConsistent db (editorial_input i articles) c) in
      elim (Outcome-cases (attach_all made event.id articles true).1) [
        | inr (e, g) ↦ rw (h, create_with_articles) rw (g) (linked, omega (arith, same))
        | inl (x, g) ↦ rw (h, create_with_articles) rw (g) (linked, omega (arith, same))
      ]
]

pub create_event_from_articles-IsConsistent :
    (db : EventDb) (i : CreateEventFromArticlesInput)
    → IsConsistent db
    → IsConsistent (create_event_from_articles db i).0
unfolding create_event_from_articles
create_event_from_articles-IsConsistent db i c = elim (List-cases (distinct_ids [] i.article_ids)) [
  | inl none_named ↦ rw (none_named, create_event_from_articles) c
  | inr (a, ids, named) ↦
      let (after, grows) = create_with_articles-IsConsistent db i (a ∷ ids) c in
      rw (named, create_event_from_articles)
        (with_transaction-IsConsistent db (create_with_articles i (a ∷ ids)) c after grows)
]

move_work-IsConsistent :
    (db : EventDb) (article_id from to : ℕ)
    → IsConsistent db
    → IsConsistent (move_work article_id from to db).0
      × (db.next_event_id ≤ (move_work article_id from to db).0.next_event_id)
move_work-IsConsistent db article_id from to c =
    let detached = (detach_article db from article_id).0 in
    let i = analyst_link to article_id false in
    let first = detach_article-IsConsistent db from article_id c in
    let same = detach_article-next_event_id db from article_id in
    elim (Outcome-cases (detach_article db from article_id).1) [
      | inr (e, h) ↦ rw (h, move_work) (first, omega (arith, same))
      | inl (x, h) ↦
          rw (h, move_work)
            (
              attach_article-IsConsistent detached i first,
              omega (arith, same, attach_article-next_event_id detached i),
            )
    ]

pub move_article_between_events-IsConsistent :
    (db : EventDb) (article_id from to : ℕ)
    → IsConsistent db
    → IsConsistent (move_article_between_events db article_id from to).0
unfolding move_article_between_events
move_article_between_events-IsConsistent db article_id from to c =
    let (after, grows) = move_work-IsConsistent db article_id from to c in
    elim (Bool-cases (from == to)) [
      | inl same ↦ rw (same, move_article_between_events) c
      | inr other ↦
          rw (other, move_article_between_events)
            (with_transaction-IsConsistent db (move_work article_id from to) c after grows)
    ]
