-- ===== src/Events/Consistency.antt =====
-- The invariant of the tables of events: every event's `source_count` is the number of its articles, an
-- article is linked to an event at most once, a link's event and article exist, and ids are fresh.
use ai_event_intelligence_ag.Base.{
  ℕ, ◌+◌, ◌≡◌, refl, ◌==◌, true, none, List, [], ◌∷◌, arith, is_some, All,
}
use ai_event_intelligence_ag.Base.Table.{
  find_by, update_by, Below, Below-weaken, Below-update_by, All-update_where, All-mono,
  find_by-update_by,
}
use ai_event_intelligence_ag.Events.Records.{
  CyberEvent, Article, EventArticle, EventDb, article_key, event_key,
}
use ai_event_intelligence_ag.Events.Store.{
  CreateEventInput, new_event, create_event, count_links, set_event,
}
use ai_event_intelligence_ag.Events.Counts.{IsUnique}

abbrev pub IsCounted : List EventArticle → CyberEvent → Type 0
IsCounted links e = e.source_count ≡ count_links e.id links

-- The foreign keys of a link.
abbrev pub IsReferred : List CyberEvent → List Article → EventArticle → Type 0
IsReferred events articles l =
    (is_some (find_by event_key l.event_id events) ≡ true)
    × (is_some (find_by article_key l.article_id articles) ≡ true)

pub record IsConsistent (db : EventDb) : Type 0 where
  pub fresh : Below event_key db.next_event_id db.events
  pub counted : All (IsCounted db.event_articles) db.events
  pub unique : IsUnique db.event_articles
  pub referred : All (IsReferred db.events db.articles) db.event_articles

-- An event that no link refers to has no articles.
count_links-unreferred :
    (k : ℕ) (events : List CyberEvent) (articles : List Article) (links : List EventArticle)
    → find_by event_key k events ≡ none
    → All (IsReferred events articles) links
    → count_links k links ≡ 0
count_links-unreferred k events articles [] absent all = refl
count_links-unreferred k events articles (l ∷ links) absent all =
    ground (arith, count_links-unreferred k events articles links absent, all.0)

next_is_absent :
    (n : ℕ) (events : List CyberEvent)
    → Below event_key n events
    → find_by event_key n events ≡ none
next_is_absent n [] below = refl
next_is_absent n (e ∷ events) below = ground (arith, next_is_absent n events below.1, below.0)

pub create_event-IsConsistent :
    (db : EventDb) (i : CreateEventInput) → IsConsistent db → IsConsistent (create_event db i).0
unfolding create_event
create_event-IsConsistent db i c = record {
  fresh = (
    omega arith,
    Below-weaken event_key db.next_event_id (db.next_event_id + 1) db.events (omega arith) c.fresh,
  );
  counted = (
    ground (
      arith,
      count_links-unreferred db.next_event_id db.events db.articles db.event_articles
          (next_is_absent db.next_event_id db.events c.fresh) c.referred,
    ),
    c.counted,
  );
  unique = c.unique;
  referred =
      All-mono (IsReferred db.events db.articles)
        (IsReferred (new_event db i ∷ db.events) db.articles) db.event_articles
        (λ l h. ground (arith, h.0, h.1)) c.referred;
}

-- A row's update that keeps its id and its count.
pub set_event-IsConsistent :
    (db : EventDb) (event_id : ℕ) (f : CyberEvent → CyberEvent)
    → ((e : CyberEvent) → (event_key (f e) ≡ event_key e))
    → ((e : CyberEvent) → (f e).source_count ≡ e.source_count)
    → IsConsistent db
    → IsConsistent (set_event event_id f db)
set_event-IsConsistent db event_id f keeps counts c = record {
  fresh = Below-update_by event_key db.next_event_id event_id f db.events keeps c.fresh;
  counted =
      All-update_where (IsCounted db.event_articles) (IsCounted db.event_articles)
        (λ e. event_key e == event_id) f db.events (λ e h. ground (arith, keeps e, counts e, h))
        c.counted;
  unique = c.unique;
  referred =
      All-mono (IsReferred db.events db.articles)
        (IsReferred (update_by event_key event_id f db.events) db.articles) db.event_articles
        (λ l h. (
          ground (arith, find_by-update_by event_key l.event_id event_id f db.events keeps, h.0),
          h.1,
        ))
        c.referred;
}
