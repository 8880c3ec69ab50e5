-- ===== src/Events/Creation.antt =====
-- createEventFromArticles of src/events/event-editorial.ts: when it throws, and who belongs to what
-- afterwards.
use ai_event_intelligence_ag.Base.{
  ℕ, ◌≡◌, refl, ◌==◌, Bool, true, false, ◌&&◌, ◌||◌, List, [], ◌∷◌, arith, inl, inr, Bool-cases,
  Option-cases, List-cases, if◌then◌else◌, any, All, ==_refl,
}
use ai_event_intelligence_ag.Base.Table.{All-mono, key-find_by}
use ai_event_intelligence_ag.Events.Records.{
  Article, EventDb, Outcome, returned, thrown, article_not_found, article_key,
}
use ai_event_intelligence_ag.Events.Store.{create_event, attach_article, find_article}
use ai_event_intelligence_ag.Events.Links.{
  is_member, has_event, has_article, attach_article-returned, attach_article-is_member,
  attach_article-has_event, attach_article-has_article,
}
use ai_event_intelligence_ag.Events.Editorial.{
  CreateEventFromArticlesInput, analyst_link, attach_all, find_by_ids, distinct_ids,
  create_with_articles, create_event_from_articles, with_transaction, editorial_input,
}
use ai_event_intelligence_ag.Events.Moves.{tables}

abbrev pub HasArticle : EventDb → Article → Type 0
HasArticle db a = has_article db a.id ≡ true

abbrev pub all_exist : EventDb → List ℕ → Bool
all_exist db [] = true
all_exist db (a ∷ ids) = has_article db a && all_exist db ids

abbrev pub is_among : ℕ → List ℕ → Bool
is_among b ids = any (λ a. a == b) ids

pub attach_all-returned :
    (db : EventDb) (event_id : ℕ) (articles : List Article) (primary : Bool)
    → has_event db event_id ≡ true
    → All (HasArticle db) articles
    → (attach_all db event_id articles primary).1 ≡ returned tt
unfolding attach_all
attach_all-returned db event_id [] primary event all = refl
attach_all-returned db event_id (a ∷ rest) primary event all =
    let i = analyst_link event_id a.id primary in
    let next = (attach_article db i).0 in
    ground (
      arith,
      attach_article-returned db i,
      all.0,
      attach_all-returned next event_id rest false
          (ground (arith, attach_article-has_event db i event_id))
          (All-mono (HasArticle db) (HasArticle next) rest
            (λ b h. ground (arith, attach_article-has_article db i b.id)) all.1),
    )

attach_all-is_member :
    (db : EventDb) (event_id : ℕ) (articles : List Article) (primary : Bool) (e b : ℕ)
    → has_event db event_id ≡ true
    → All (HasArticle db) articles
    → is_member (attach_all db event_id articles primary).0 e b
      ≡ (is_member db e b || (event_id == e && any (λ (a : Article). a.id == b) articles))
unfolding attach_all
attach_all-is_member db event_id [] primary e b event all = ground arith
attach_all-is_member db event_id (a ∷ rest) primary e b event all =
    let i = analyst_link event_id a.id primary in
    let next = (attach_article db i).0 in
    ground (
      arith,
      attach_article-returned db i,
      attach_article-is_member db i e b,
      all.0,
      attach_all-is_member next event_id rest false e b
          (ground (arith, attach_article-has_event db i event_id))
          (All-mono (HasArticle db) (HasArticle next) rest
            (λ b h. ground (arith, attach_article-has_article db i b.id)) all.1),
    )

-- The articles that `findByIds` returns are those of the ids, and they exist.
pub find_by_ids-found :
    (db : EventDb) (ids : List ℕ)
    → all_exist db ids ≡ true
    → (articles : List Article) × (find_by_ids db ids ≡ returned articles)
      × All (HasArticle db) articles
      × ((b : ℕ) → any (λ (a : Article). a.id == b) articles ≡ is_among b ids)
unfolding find_by_ids
find_by_ids-found db [] exist = ([], refl, tt, λ b. refl)
find_by_ids-found db (a ∷ ids) exist = elim (Option-cases (find_article db a)) [
  | inl absent ↦ cc
  | inr (found, here) ↦
      let (more, same, all, among) = find_by_ids-found db ids (ground arith) in
      let key = key-find_by article_key a db.articles found here in
      (
        found ∷ more,
        rw (here, find_by_ids) rw (same) refl,
        (ground (arith, key), all),
        λ b. ground (arith, key, among b),
      )
]

pub find_by_ids-missing :
    (db : EventDb) (ids : List ℕ)
    → all_exist db ids ≡ false
    → (a : ℕ) × (find_by_ids db ids ≡ thrown (article_not_found a)) × (has_article db a ≡ false)
unfolding find_by_ids
find_by_ids-missing db [] exist = cc
find_by_ids-missing db (a ∷ ids) exist = elim (Option-cases (find_article db a)) [
  | inl absent ↦ (a, rw (absent, find_by_ids) refl, ground arith)
  | inr (found, here) ↦
      let (b, same, gone) = find_by_ids-missing db ids (ground arith) in
      (b, rw (here, find_by_ids) rw (same) refl, gone)
]

abbrev pub is_returned : {A : Type 0} → Outcome A → Bool
is_returned (returned x) = true
is_returned (thrown e) = false

-- The condition under which an event can be created: an article is named, and all that are named exist.
abbrev pub can_create : EventDb → CreateEventFromArticlesInput → Bool
can_create db i = elim (distinct_ids [] i.article_ids) [
  | [] ↦ false
  | a ∷ ids ↦ all_exist db (a ∷ ids)
]

pub create_with_articles-is_member :
    (db : EventDb) (i : CreateEventFromArticlesInput) (ids : List ℕ) (e b : ℕ)
    → all_exist db ids ≡ true
    → let made = create_with_articles i ids db in
      (is_returned made.1 ≡ true)
      × (is_member made.0 e b ≡ (is_member db e b || (db.next_event_id == e && is_among b ids)))
unfolding create_with_articles create_event
create_with_articles-is_member db i ids e b exist =
    let (articles, same, all, among) = find_by_ids-found db ids exist in
    let (made, event) = create_event db (editorial_input i articles) in
    let there = ==_refl db.next_event_id in
    let linked = attach_all-returned made db.next_event_id articles true (ground arith) all in
    let members = attach_all-is_member made db.next_event_id articles true e b (ground arith) all in
    rw (same, create_with_articles)
      (ground (arith, linked), ground (arith, linked, members, among b))

-- An event is created from a list of articles exactly when an article is named and all that are named
-- exist; its articles are then the named ones, and every other membership is as it was. Otherwise the
-- creation throws and all tables are as they were.
pub create_event_from_articles-is_member :
    (db : EventDb) (i : CreateEventFromArticlesInput) (e b : ℕ)
    → let made = create_event_from_articles db i in
      let can = can_create db i in
      (is_returned made.1 ≡ can)
      × (is_member made.0 e b ≡ (
          is_member db e b
          || (can && db.next_event_id == e && is_among b (distinct_ids [] i.article_ids))))
      × ((if can then tables db else tables made.0) ≡ tables db)
unfolding create_event_from_articles with_transaction create_with_articles
create_event_from_articles-is_member db i e b = elim (List-cases (distinct_ids [] i.article_ids)) [
  | inl none_named ↦ ground arith
  | inr (a, more, named) ↦ elim (Bool-cases (all_exist db (a ∷ more))) [
    | inl exist ↦ ground (arith, create_with_articles-is_member db i (a ∷ more) e b exist)
    | inr missing ↦
        let (x, same, gone) = find_by_ids-missing db (a ∷ more) missing in ground (arith, same)
  ]
]
