-- ===== src/Events/Stage/Turn.antt =====
-- One turn of the loop of src/pipeline/event-stage.ts: it does not throw, and it gives its article an event.
use ai_event_intelligence_ag.Base.{
  ℕ, ◌≡◌, ◌+◌, refl, ◌==◌, String, Bool, true, false, ◌&&◌, ◌||◌, Option, none, some, List, [], ◌∷◌,
  arith, inl, inr, Option-cases, str_eq, any, is_some, find, ==_refl,
}
use ai_event_intelligence_ag.Base.Table.{update_where, All-mono, find_by-update_by}
use ai_event_intelligence_ag.Events.Records.{
  Article, EventArticle, EventDb, Outcome, returned, article_key,
}
use ai_event_intelligence_ag.Events.Store.{
  AttachInput, attach_article, create_event, find_article, is_link, relink_row,
  update_processing_status,
}
use ai_event_intelligence_ag.Events.Links.{
  has_event, has_article, can_attach, attach_article-returned,
}
use ai_event_intelligence_ag.Events.Consistency.{
  IsConsistent, IsReferred, create_event-IsConsistent, set_event-IsConsistent,
}
use ai_event_intelligence_ag.Events.Membership.{attach_article-IsConsistent}
use ai_event_intelligence_ag.Events.Grouping.{
  EventDraft, GroupingDecision, attach, create, uncertain,
}
use ai_event_intelligence_ag.Events.Embeddings.{get_eligible_embedding, copy_article_embedding}
use ai_event_intelligence_ag.Events.Stage.{
  Grouping, StageState, EventStageResult, start_event, carry_out, stage_link, drafted,
}
use ai_event_intelligence_ag.Events.Stage.Ladder.{is_known}

pub update_processing_status-IsConsistent :
    (db : EventDb) (article_id : ℕ) (status : String) (error : Option String)
    → IsConsistent db
    → IsConsistent (update_processing_status db article_id status error)
unfolding update_processing_status
update_processing_status-IsConsistent db article_id status error c = record {
  fresh = c.fresh;
  counted = c.counted;
  unique = c.unique;
  referred =
      All-mono (IsReferred db.events db.articles)
        (IsReferred db.events (update_processing_status db article_id status error).articles)
        db.event_articles
        (λ l h. (
          h.0,
          ground (
            arith,
            find_by-update_by article_key l.article_id article_id
                (λ a. record a { processing_status = status; processing_error = error }) db.articles
                (λ a. refl),
            h.1,
          ),
        ))
        c.referred;
}

copy_article_embedding-IsConsistent :
    (db : EventDb) (model : String) (event_id article_id : ℕ)
    → IsConsistent db
    → IsConsistent (copy_article_embedding db model event_id article_id)
unfolding copy_article_embedding
copy_article_embedding-IsConsistent db model event_id article_id c =
    elim (Option-cases (get_eligible_embedding db model article_id)) [
      | inl missing ↦
          rw (missing, copy_article_embedding)
            (set_event-IsConsistent db event_id _ (λ e. refl) (λ e. refl) c)
      | inr (vector, there) ↦
          rw (there, copy_article_embedding)
            (set_event-IsConsistent db event_id _ (λ e. refl) (λ e. refl) c)
    ]

-- The article belongs to some event.
abbrev pub belongs : EventDb → ℕ → Bool
belongs db article_id = any (λ (l : EventArticle). l.article_id == article_id) db.event_articles

abbrev pub is_grouped : EventDb → ℕ → Bool
is_grouped db article_id = elim (find_article db article_id) [
  | none ↦ false
  | some a ↦ str_eq a.processing_status "GROUPED"
]

belongs_relinked :
    (i : AttachInput) (b : ℕ) (links : List EventArticle)
    → any
        (λ (l : EventArticle). l.article_id == b)
        (update_where (is_link i.event_id i.article_id) (relink_row i) links)
      ≡ any (λ (l : EventArticle). l.article_id == b) links
belongs_relinked i b [] = refl
belongs_relinked i b (l ∷ links) = ground (arith, belongs_relinked i b links)

belongs_linked :
    (e a : ℕ) (links : List EventArticle)
    → is_some (find (is_link e a) links) ≡ true
    → any (λ (l : EventArticle). l.article_id == a) links ≡ true
belongs_linked e a [] h = cc
belongs_linked e a (l ∷ links) h = ground (arith, belongs_linked e a links)

pub attach_article-belongs :
    (db : EventDb) (i : AttachInput) (b : ℕ)
    → belongs (attach_article db i).0 b
      ≡ (belongs db b || (i.article_id == b && can_attach db i.event_id i.article_id))
unfolding attach_article
attach_article-belongs db i b = ground (
  arith,
  belongs_relinked i b db.event_articles,
  belongs_linked i.event_id i.article_id db.event_articles,
)

pub attach_article-articles :
    (db : EventDb) (i : AttachInput) → (attach_article db i).0.articles ≡ db.articles
unfolding attach_article
attach_article-articles db i = ground arith

-- The state after a turn: nothing was thrown, the tables are consistent and one article joined.
pub record IsJoined (before after : EventDb) (outcome : Outcome Unit) (a : ℕ) : Type 0 where
  pub quiet : outcome ≡ returned tt
  pub consistent : IsConsistent after
  pub articles : after.articles ≡ before.articles
  pub joined : (b : ℕ) → belongs after b ≡ (belongs before b || a == b)

attach_article-IsJoined :
    (db : EventDb) (i : AttachInput)
    → IsConsistent db
    → has_event db i.event_id ≡ true
    → has_article db i.article_id ≡ true
    → IsJoined db (attach_article db i).0 (attach_article db i).1 i.article_id
attach_article-IsJoined db i c event article = record {
  quiet = ground (arith, attach_article-returned db i);
  consistent = attach_article-IsConsistent db i c;
  articles = attach_article-articles db i;
  joined = λ b. ground (arith, attach_article-belongs db i b);
}

start_event-IsJoined :
    (g : Grouping) (article : Article) (draft : EventDraft) (db : EventDb)
    → IsConsistent db
    → has_article db article.id ≡ true
    → IsJoined db (start_event g article draft db).0 (start_event g article draft db).1 article.id
unfolding start_event create_event copy_article_embedding
start_event-IsJoined g article draft db c there =
    let (made, event) = create_event db (drafted draft) in
    let i = stage_link event.id article.id "same_event" 600000000 true false in
    let h =
      attach_article-IsJoined made i (create_event-IsConsistent db (drafted draft) c)
        (ground (arith, ==_refl db.next_event_id)) there in
    rw (h.quiet, start_event)
      (record {
        quiet = refl;
        consistent =
            copy_article_embedding-IsConsistent (attach_article made i).0 g.model event.id
              article.id h.consistent;
        articles = ground (arith, h.articles);
        joined = λ b. ground (arith, h.joined b);
      })

-- The attachments that the result counts by method, and the created events.
abbrev pub is_tallied : EventStageResult → Bool
is_tallied r =
    r.attached == r.created + r.attached_by_key + r.attached_by_embedding + r.attached_by_llm

pub carry_out-IsJoined :
    (g : Grouping) (article : Article) (draft : EventDraft) (decision : GroupingDecision)
    (s : StageState)
    → IsConsistent s.db
    → has_article s.db article.id ≡ true
    → is_known s.db decision ≡ true
    → let (after, outcome) = carry_out g article draft decision s in
      IsJoined s.db after.db outcome article.id
      × (after.result.attached ≡ s.result.attached + 1)
      × (is_tallied s.result ≡ true → is_tallied after.result ≡ true)
unfolding carry_out
carry_out-IsJoined g article draft (attach event relationship confidence material method) s c there
      known =
    (
      attach_article-IsJoined s.db
          (stage_link event.id article.id relationship confidence false material) c (ground arith)
          there,
      ground arith,
      λ h. ground arith,
    )
carry_out-IsJoined g article draft (create method) s c there known =
    (start_event-IsJoined g article draft s.db c there, refl, λ h. ground arith)
carry_out-IsJoined g article draft (uncertain candidate) s c there known =
    (start_event-IsJoined g article draft s.db c there, refl, λ h. ground arith)
