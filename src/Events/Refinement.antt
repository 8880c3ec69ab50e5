-- ===== src/Events/Refinement.antt =====
-- The editorial operations of src/events/event-editorial.ts beside the relation between events and
-- articles: rows, ids of links, counts and transactions are left out of the abstract view.
use ai_event_intelligence_ag.Base.{ℕ, ◌≡◌, refl, false, List, [], ◌∷◌, arith, inl, inr, List-cases}
use ai_event_intelligence_ag.Events.Records.{EventDb}
use ai_event_intelligence_ag.Events.Links.{
  attach_article-returned, attach_article-is_member, attach_article-has_event,
  attach_article-has_article, detach_article-returned, detach_article-is_member,
  detach_article-has_event, detach_article-has_article,
}
use ai_event_intelligence_ag.Events.Editorial.{
  CreateEventFromArticlesInput, analyst_link, attach_article_to_event, detach_article_from_event,
  distinct_ids,
}
use ai_event_intelligence_ag.Events.Creation.{
  all_exist, can_create, create_event_from_articles-is_member,
}
use ai_event_intelligence_ag.Events.Arrivals.{
  create_event_from_articles_arrivals, move_article_between_events_arrivals,
}
use ai_event_intelligence_ag.Events.Atomicity.{
  attach_article-next_event_id, detach_article-next_event_id,
}
use ai_event_intelligence_ag.Events.Moves.{move_article_between_events-is_member}
use ai_event_intelligence_ag.Events.Memberships.{
  attach_of, create_of, detach_of, move_of, execute, execute_all, are_known, named_ids, may_create,
  specified, specified_all, EditorialCommand, Memberships, IsViewOf,
}

attach_refines :
    (m : Memberships) (db : EventDb) (e a : ℕ)
    → IsViewOf m db
    → let (after, answer) = execute db (attach_of e a) in
      let (next, expected) = specified m (attach_of e a) in
      (answer ≡ expected) × IsViewOf next after
unfolding execute attach_article_to_event
attach_refines m db e a v =
    let i = analyst_link e a false in
    (
      ground (arith, attach_article-returned db i, v.member e a, v.events e, v.articles a),
      record {
        next = ground (arith, attach_article-next_event_id db i, v.next);
        events = λ d. ground (arith, attach_article-has_event db i d, v.events d);
        articles = λ b. ground (arith, attach_article-has_article db i b, v.articles b);
        member = λ d b. ground (
          arith,
          attach_article-is_member db i d b,
          v.member d b,
          v.member e a,
          v.events e,
          v.articles a,
        );
      },
    )

detach_refines :
    (m : Memberships) (db : EventDb) (e a : ℕ)
    → IsViewOf m db
    → let (after, answer) = execute db (detach_of e a) in
      let (next, expected) = specified m (detach_of e a) in
      (answer ≡ expected) × IsViewOf next after
unfolding execute detach_article_from_event
detach_refines m db e a v = (
  ground (arith, detach_article-returned db e a, v.member e a),
  record {
    next = ground (arith, detach_article-next_event_id db e a, v.next);
    events = λ d. ground (arith, detach_article-has_event db e a d, v.events d);
    articles = λ b. ground (arith, detach_article-has_article db e a b, v.articles b);
    member = λ d b. ground (
      arith,
      detach_article-is_member db e a d b,
      detach_article-returned db e a,
      v.member d b,
      v.member e a,
    );
  },
)

are_known-all_exist :
    (m : Memberships) (db : EventDb) (ids : List ℕ)
    → IsViewOf m db
    → all_exist db ids ≡ are_known m.articles ids
are_known-all_exist m db [] v = refl
are_known-all_exist m db (a ∷ ids) v = ground (arith, v.articles a, are_known-all_exist m db ids v)

may_create-can_create :
    (m : Memberships) (db : EventDb) (i : CreateEventFromArticlesInput)
    → IsViewOf m db
    → can_create db i ≡ may_create m (named_ids i)
may_create-can_create m db i v = elim (List-cases (distinct_ids [] i.article_ids)) [
  | inl none_named ↦ ground arith
  | inr (a, more, named) ↦ ground (arith, are_known-all_exist m db (a ∷ more) v)
]

create_refines :
    (m : Memberships) (db : EventDb) (i : CreateEventFromArticlesInput)
    → IsViewOf m db
    → let (after, answer) = execute db (create_of i) in
      let (next, expected) = specified m (create_of i) in (answer ≡ expected) × IsViewOf next after
unfolding execute
create_refines m db i v =
    let can = may_create-can_create m db i v in
    (
      ground (arith, create_event_from_articles-is_member db i 0 0, can),
      record {
        next = ground (arith, create_event_from_articles_arrivals db i 0, can, v.next);
        events = λ e.
            ground (arith, create_event_from_articles_arrivals db i e, can, v.events e, v.next);
        articles =
            λ b. ground (arith, create_event_from_articles_arrivals db i b, can, v.articles b);
        member = λ e b.
            ground
              (arith, create_event_from_articles-is_member db i e b, can, v.member e b, v.next);
      },
    )

move_refines :
    (m : Memberships) (db : EventDb) (a from to : ℕ)
    → IsViewOf m db
    → let (after, answer) = execute db (move_of a from to) in
      let (next, expected) = specified m (move_of a from to) in
      (answer ≡ expected) × IsViewOf next after
unfolding execute
move_refines m db a from to v = (
  ground (
    arith,
    move_article_between_events-is_member db a from to 0 0,
    v.member from a,
    v.member to a,
    v.events to,
    v.articles a,
  ),
  record {
    next = ground (arith, move_article_between_events_arrivals db a from to 0, v.next);
    events = λ e. ground (arith, move_article_between_events_arrivals db a from to e, v.events e);
    articles =
        λ b. ground (arith, move_article_between_events_arrivals db a from to b, v.articles b);
    member = λ e b. ground (
      arith,
      move_article_between_events-is_member db a from to e b,
      v.member e b,
      v.member from a,
      v.member to a,
      v.events to,
      v.articles a,
    );
  },
)

execute-IsViewOf :
    (m : Memberships) (db : EventDb) (c : EditorialCommand)
    → IsViewOf m db
    → ((execute db c).1 ≡ (specified m c).1) × IsViewOf (specified m c).0 (execute db c).0
execute-IsViewOf m db (create_of i) v = create_refines m db i v
execute-IsViewOf m db (attach_of e a) v = attach_refines m db e a v
execute-IsViewOf m db (detach_of e a) v = detach_refines m db e a v
execute-IsViewOf m db (move_of a from to) v = move_refines m db a from to v

-- Any sequence of creations, attachments, detachments and moves, run on tables that a view shows, returns
-- or throws command by command as the abstract relation says, and leaves tables that the view after the same
-- commands shows.
pub execute_all-IsViewOf :
    (m : Memberships) (db : EventDb) (commands : List EditorialCommand)
    → IsViewOf m db
    → ((execute_all db commands).1 ≡ (specified_all m commands).1)
      × IsViewOf (specified_all m commands).0 (execute_all db commands).0
unfolding execute_all
execute_all-IsViewOf m db [] v = (refl, v)
execute_all-IsViewOf m db (c ∷ commands) v =
    let (answer, next) = execute-IsViewOf m db c v in
    let (answers, last) = execute_all-IsViewOf (specified m c).0 (execute db c).0 commands next in
    (cc (answer, answers), last)
