-- ===== src/Events/Links.antt =====
-- Who belongs to what after attachArticle and detachArticle of src/db/repositories/event.repository.ts,
-- and when they throw.
use ai_event_intelligence_ag.Base.{
  ℕ, ◌≡◌, refl, ◌==◌, Bool, not, ◌&&◌, ◌||◌, List, ◌∷◌, arith, if◌then◌else◌, find, keep, is_some,
}
use ai_event_intelligence_ag.Base.Table.{find_by-update_by, update_by, update_where}
use ai_event_intelligence_ag.Events.Records.{
  EventDb, CyberEvent, returned, thrown, not_attached, foreign_key_violation, event_key,
}
use ai_event_intelligence_ag.Events.Store.{
  AttachInput, find_event, find_article, is_link, find_link, attached_row, detached_row,
  attach_article, detach_article, relink_row, new_link,
}
use ai_event_intelligence_ag.Events.Counts.{find-relink_row, find-keep_link}

-- The article belongs to the event.
abbrev pub is_member : EventDb → ℕ → ℕ → Bool
is_member db event_id article_id = is_some (find_link db event_id article_id)

abbrev pub has_event : EventDb → ℕ → Bool
has_event db event_id = is_some (find_event db event_id)

abbrev pub has_article : EventDb → ℕ → Bool
has_article db article_id = is_some (find_article db article_id)

abbrev pub can_attach : EventDb → ℕ → ℕ → Bool
can_attach db event_id article_id =
    is_member db event_id article_id || (has_event db event_id && has_article db article_id)

pub attach_article-returned :
    (db : EventDb) (i : AttachInput)
    → (attach_article db i).1 ≡ (
        if can_attach db i.event_id i.article_id then returned tt else thrown foreign_key_violation)
unfolding attach_article
attach_article-returned db i = ground arith

pub attach_article-is_member :
    (db : EventDb) (i : AttachInput) (e a : ℕ)
    → is_member (attach_article db i).0 e a ≡ (
        is_member db e a
        || ((i.event_id == e && i.article_id == a) && can_attach db i.event_id i.article_id))
unfolding attach_article
attach_article-is_member db i e a = ground (arith, find-relink_row i e a db.event_articles)

pub detach_article-returned :
    (db : EventDb) (event_id article_id : ℕ)
    → (detach_article db event_id article_id).1 ≡ (
        if is_member db event_id article_id
        then returned tt
        else thrown (not_attached event_id article_id))
unfolding detach_article
detach_article-returned db event_id article_id = ground arith

pub detach_article-is_member :
    (db : EventDb) (event_id article_id e a : ℕ)
    → is_member (detach_article db event_id article_id).0 e a
      ≡ (is_member db e a && not (event_id == e && article_id == a))
unfolding detach_article
detach_article-is_member db event_id article_id e a =
    ground (arith, find-keep_link event_id article_id e a db.event_articles)

has_event_after :
    (k event_id : ℕ) (f : CyberEvent → CyberEvent) (events : List CyberEvent)
    → ((e : CyberEvent) → event_key (f e) ≡ event_key e)
    → is_some (find (λ (e : CyberEvent). event_key e == k) (update_by event_key event_id f events))
      ≡ is_some (find (λ e. event_key e == k) events)
has_event_after k event_id f events keeps =
    ground (arith, find_by-update_by event_key k event_id f events keeps)

pub attach_article-has_event :
    (db : EventDb) (i : AttachInput) (k : ℕ) → has_event (attach_article db i).0 k ≡ has_event db k
unfolding attach_article
attach_article-has_event db i k = ground (
  arith,
  has_event_after k i.event_id
      (attached_row db.now
        (update_where (is_link i.event_id i.article_id) (relink_row i) db.event_articles)
        i.relationship)
      db.events (λ e. refl),
  has_event_after k i.event_id
      (attached_row db.now (new_link db i ∷ db.event_articles) i.relationship) db.events
      (λ e. refl),
)

pub detach_article-has_event :
    (db : EventDb) (event_id article_id k : ℕ)
    → has_event (detach_article db event_id article_id).0 k ≡ has_event db k
unfolding detach_article
detach_article-has_event db event_id article_id k = ground (
  arith,
  has_event_after k event_id
      (detached_row db.now (keep (λ l. not (is_link event_id article_id l)) db.event_articles))
      db.events (λ e. refl),
)

pub attach_article-has_article :
    (db : EventDb) (i : AttachInput) (k : ℕ)
    → has_article (attach_article db i).0 k ≡ has_article db k
unfolding attach_article
attach_article-has_article db i k = ground arith

pub detach_article-has_article :
    (db : EventDb) (event_id article_id k : ℕ)
    → has_article (detach_article db event_id article_id).0 k ≡ has_article db k
unfolding detach_article
detach_article-has_article db event_id article_id k = ground arith
