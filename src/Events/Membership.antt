-- ===== src/Events/Membership.antt =====
-- attachArticle and detachArticle of src/db/repositories/event.repository.ts keep the tables of events
-- consistent, and what they do to who belongs to what.
use ai_event_intelligence_ag.Base.{
  ℕ, ◌≡◌, refl, ◌==◌, false, not, ◌&&◌, List, ◌∷◌, arith, inl, inr, Bool-cases, Option-cases, keep,
  is_some, All, &&-true,
}
use ai_event_intelligence_ag.Base.Table.{
  update_by, update_where, Below-update_by, All-update_where, All-mono, find_by-update_by,
}
use ai_event_intelligence_ag.Base.Sort.{All-keep}
use ai_event_intelligence_ag.Events.Records.{CyberEvent, Article, EventArticle, EventDb, event_key}
use ai_event_intelligence_ag.Events.Store.{
  AttachInput, find_event, find_article, is_link, find_link, count_links, attached_row,
  detached_row, attach_article, detach_article, relink_row, new_link,
}
use ai_event_intelligence_ag.Events.Counts.{
  count_links-update_where, count_links-keep, relinked-IsUnique, keep-IsUnique,
}
use ai_event_intelligence_ag.Events.Consistency.{IsConsistent, IsCounted, IsReferred}

-- The links that referred to rows still do, when the events only change other columns.
links_survive :
    (event_id : ℕ) (f : CyberEvent → CyberEvent) (events : List CyberEvent)
    (articles : List Article) (l : EventArticle)
    → ((e : CyberEvent) → event_key (f e) ≡ event_key e)
    → IsReferred events articles l
    → IsReferred (update_by event_key event_id f events) articles l
links_survive event_id f events articles l keeps h =
    (ground (arith, find_by-update_by event_key l.event_id event_id f events keeps, h.0), h.1)

-- The counts, when the links of one event changed and its row was counted again.
recounted :
    (event_id : ℕ) (f : CyberEvent → CyberEvent) (before after : List EventArticle)
    (events : List CyberEvent)
    → ((e : CyberEvent) → IsCounted after (f e))
    → ((k : ℕ) → (event_id == k) ≡ false → count_links k after ≡ count_links k before)
    → All (IsCounted before) events
    → All (IsCounted after) (update_by event_key event_id f events)
recounted event_id f before after events counts others all =
    All-update_where (IsCounted before) (IsCounted after) (λ e. event_key e == event_id) f events
      (λ e h. elim (Bool-cases (event_key e == event_id)) [
        | inl this ↦ rw (this) (counts e)
        | inr other ↦ rw (other) (ground (arith, others e.id, h))
      ])
      all

pub attach_article-IsConsistent :
    (db : EventDb) (i : AttachInput) → IsConsistent db → IsConsistent (attach_article db i).0
unfolding attach_article
attach_article-IsConsistent db i c = elim (Option-cases (find_link db i.event_id i.article_id)) [
  | inr (l, there) ↦
      let links = update_where (is_link i.event_id i.article_id) (relink_row i) db.event_articles in
      let f = attached_row db.now links i.relationship in
      rw (there, attach_article)
        (record {
          fresh =
              Below-update_by event_key db.next_event_id i.event_id f db.events (λ e. refl) c.fresh;
          counted =
              recounted i.event_id f db.event_articles links db.events (λ e. refl)
                (λ k other. count_links-update_where i k db.event_articles) c.counted;
          unique = relinked-IsUnique i db.event_articles c.unique;
          referred =
              All-update_where (IsReferred db.events db.articles)
                (IsReferred (update_by event_key i.event_id f db.events) db.articles)
                (is_link i.event_id i.article_id) (relink_row i) db.event_articles
                (λ l h. elim (Bool-cases (is_link i.event_id i.article_id l)) [
                  | inl this ↦
                      rw (this) (links_survive i.event_id f db.events db.articles l (λ e. refl) h)
                  | inr other ↦
                      rw (other) (links_survive i.event_id f db.events db.articles l (λ e. refl) h)
                ])
                c.referred;
        })
  | inl absent ↦
      elim (Bool-cases
        (is_some (find_event db i.event_id) && is_some (find_article db i.article_id))) [
          | inr refused ↦
              rw (absent, refused, attach_article)
                (record {
                  fresh = c.fresh;
                  counted = c.counted;
                  unique = c.unique;
                  referred = c.referred;
                })
          | inl exist ↦
              let links = new_link db i ∷ db.event_articles in
              let f = attached_row db.now links i.relationship in
              let both =
                &&-true (is_some (find_event db i.event_id))
                  (is_some (find_article db i.article_id)) exist in
              rw (absent, exist, attach_article)
                (record {
                  fresh =
                      Below-update_by event_key db.next_event_id i.event_id f db.events (λ e. refl)
                        c.fresh;
                  counted =
                      recounted i.event_id f db.event_articles links db.events (λ e. refl)
                        (λ k other. rw (other) refl) c.counted;
                  unique = (absent, c.unique);
                  referred = (
                    links_survive i.event_id f db.events db.articles (new_link db i) (λ e. refl)
                        both,
                    All-mono (IsReferred db.events db.articles)
                        (IsReferred (update_by event_key i.event_id f db.events) db.articles)
                        db.event_articles
                        (λ l h. links_survive i.event_id f db.events db.articles l (λ e. refl) h)
                        c.referred,
                  );
                })
        ]
]

pub detach_article-IsConsistent :
    (db : EventDb) (event_id article_id : ℕ)
    → IsConsistent db
    → IsConsistent (detach_article db event_id article_id).0
unfolding detach_article
detach_article-IsConsistent db event_id article_id c =
    let links = keep (λ l. not (is_link event_id article_id l)) db.event_articles in
    let f = detached_row db.now links in
    elim (Option-cases (find_link db event_id article_id)) [
      | inl absent ↦ rw (absent, detach_article) c
      | inr (l, there) ↦
          rw (there, detach_article)
            (record {
              fresh =
                  Below-update_by event_key db.next_event_id event_id f db.events (λ e. refl)
                    c.fresh;
              counted =
                  recounted event_id f db.event_articles links db.events (λ e. refl)
                    (λ k other. count_links-keep event_id article_id k db.event_articles other)
                    c.counted;
              unique = keep-IsUnique event_id article_id db.event_articles c.unique;
              referred =
                  All-keep (IsReferred (update_by event_key event_id f db.events) db.articles)
                    (λ l. not (is_link event_id article_id l)) db.event_articles
                    (All-mono (IsReferred db.events db.articles)
                      (IsReferred (update_by event_key event_id f db.events) db.articles)
                      db.event_articles
                      (λ l h. links_survive event_id f db.events db.articles l (λ e. refl) h)
                      c.referred);
            })
    ]
