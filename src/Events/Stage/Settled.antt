-- ===== src/Events/Stage/Settled.antt =====
-- One turn of the loop of src/pipeline/event-stage.ts: what it leaves of the articles settled before, and
-- its own article.
use ai_event_intelligence_ag.Base.{
  ℕ, ◌≡◌, ◌+◌, refl, ◌==◌, Bool, true, ◌&&◌, ◌||◌, none, arith, ==_refl,
}
use ai_event_intelligence_ag.Base.Table.{find_by-update_by}
use ai_event_intelligence_ag.Events.Records.{Article, EventDb, Outcome, returned, article_key}
use ai_event_intelligence_ag.Events.Store.{update_processing_status}
use ai_event_intelligence_ag.Events.Links.{has_article}
use ai_event_intelligence_ag.Events.Consistency.{IsConsistent}
use ai_event_intelligence_ag.Events.Grouping.{EventDraft, build_event_draft}
use ai_event_intelligence_ag.Events.Embeddings.{list_for_article}
use ai_event_intelligence_ag.Events.Stage.{
  Grouping, StageState, decide_grouping, resolve_with_comparator, carry_out, group_article,
}
use ai_event_intelligence_ag.Events.Stage.Ladder.{decide_grouping-is_known}
use ai_event_intelligence_ag.Events.Stage.Turn.{
  belongs, is_grouped, is_tallied, carry_out-IsJoined, update_processing_status-IsConsistent,
}

decide_grouping-db :
    (g : Grouping) (s : StageState) (article : Article) (draft : EventDraft)
    → let (after, decision) = decide_grouping g s article draft in
      (after.db ≡ s.db)
      × (after.result.attached ≡ s.result.attached)
      × (is_tallied after.result ≡ is_tallied s.result)
unfolding decide_grouping resolve_with_comparator
decide_grouping-db g s article draft = (ground arith, ground arith, ground arith)

-- The article belongs to an event and is marked as grouped.
abbrev pub is_settled : EventDb → ℕ → Bool
is_settled db article_id = belongs db article_id && is_grouped db article_id

-- What a stretch of the loop leaves: nothing thrown, consistent tables, and what was settled stays so.
pub record IsRun (before after : StageState) (outcome : Outcome Unit) (turns : ℕ) : Type 0 where
  pub quiet : outcome ≡ returned tt
  pub consistent : IsConsistent after.db
  pub articles : (b : ℕ) → has_article after.db b ≡ has_article before.db b
  pub settled : (b : ℕ) → is_settled before.db b ≡ true → is_settled after.db b ≡ true
  pub attached : after.result.attached ≡ before.result.attached + turns
  pub tallied : is_tallied before.result ≡ true → is_tallied after.result ≡ true

is_settled-update_processing_status :
    (db : EventDb) (a b : ℕ)
    → is_settled (update_processing_status db a "GROUPED" none) b
      ≡ (belongs db b && (is_grouped db b || (a == b && has_article db b)))
unfolding update_processing_status
is_settled-update_processing_status db a b = ground (
  arith,
  find_by-update_by article_key b a
      (λ x. record x { processing_status = "GROUPED"; processing_error = none }) db.articles
      (λ x. refl),
)

has_article-update_processing_status :
    (db : EventDb) (a b : ℕ)
    → has_article (update_processing_status db a "GROUPED" none) b ≡ has_article db b
unfolding update_processing_status
has_article-update_processing_status db a b = ground (
  arith,
  find_by-update_by article_key b a
      (λ x. record x { processing_status = "GROUPED"; processing_error = none }) db.articles
      (λ x. refl),
)

pub group_article-IsRun :
    (g : Grouping) (article : Article) (s : StageState)
    → IsConsistent s.db
    → has_article s.db article.id ≡ true
    → let (after, outcome) = group_article g article s in
      IsRun s after outcome 1 × (is_settled after.db article.id ≡ true)
unfolding group_article
group_article-IsRun g article s c there =
    let draft =
      build_event_draft g.to_lower_case article (list_for_article g.entities article.id) in
    let (decided, decision) = decide_grouping g s article draft in
    let (same, attached, tallied) = decide_grouping-db g s article draft in
    let (joined, more, tally) =
      carry_out-IsJoined g article draft decision decided (rw (same) c) (rw (same) there)
        (rw (same) (decide_grouping-is_known g s article draft)) in
    let (done, outcome) = carry_out g article draft decision decided in
    let grouped = is_settled-update_processing_status done.db article.id in
    let kept = has_article-update_processing_status done.db article.id in
    rw (joined.quiet, group_article)
      (
        record {
          quiet = refl;
          consistent =
              update_processing_status-IsConsistent done.db article.id "GROUPED" none
                joined.consistent;
          articles = λ b. ground (arith, kept b, joined.articles, same);
          settled = λ b h. ground (arith, grouped b, joined.joined b, joined.articles, same, h);
          attached = ground (arith, more, attached);
          tallied = λ h. ground (arith, tally, tallied, h);
        },
        ground (
          arith,
          grouped article.id,
          joined.joined article.id,
          joined.articles,
          same,
          there,
          ==_refl article.id,
        ),
      )
