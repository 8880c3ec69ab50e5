-- ===== src/Cve/Review/Verdict.antt =====
-- `recordHumanVerdict` of src/cve/review.ts on every branch.
use mathlib.Core.Option
use ai_event_intelligence_ag.Base.{
  ℕ, ◌≡◌, refl, ◌≢◌, true, false, Option, none, some, ◌∷◌, ◌==◌, if◌then◌else◌, ◌⊎◌, inl, inr,
  arith, Bool-cases,
}
use ai_event_intelligence_ag.Base.Table.{find-update_where}
use ai_event_intelligence_ag.Cve.Records.{LifecycleState, lifecycle_eq, CveCase, CaseArticle}
use ai_event_intelligence_ag.Cve.Store.{
  Db, find_case_by_id, find_case_article, is_link, append_review_event, new_review_event,
  update_case_article_lifecycle_state,
}
use ai_event_intelligence_ag.Cve.Review.{
  VerdictInput, parse_human_verdict, record_human_verdict, apply_verdict, verdict_event,
}

abbrev pub link_state : Db → ℕ → ℕ → Option LifecycleState
link_state db c a = Option.map (λ (l : CaseArticle). l.lifecycle_state) (find_case_article db c a)

same_state : (s t : LifecycleState) → lifecycle_eq s t ≡ true → s ≡ t
same_state s t h = ground arith

-- A link is found after a verdict as it was before, but for the one that the verdict is on.
find_case_article-update :
    (db : Db) (k c a : ℕ) (v : LifecycleState)
    → find_case_article (update_case_article_lifecycle_state k v db) c a
      ≡ Option.map
          (λ (l : CaseArticle).
            if l.id == k then record l { lifecycle_state = v; updated_at = db.now } else l)
          (find_case_article db c a)
unfolding update_case_article_lifecycle_state
find_case_article-update db k c a v =
    find-update_where (is_link c a) (λ l. l.id == k)
      (λ l. record l { lifecycle_state = v; updated_at = db.now }) db.case_articles (λ _. refl)

module _ (db : Db) (i : VerdictInput) (v : LifecycleState) (r : CveCase) (l : CaseArticle)
    (named : parse_human_verdict i.verdict ≡ some v) (found : find_case_by_id db i.case_id ≡ some r)
    (linked : find_case_article db i.case_id i.article_id ≡ some l) where
  outcome : record_human_verdict db i ≡ apply_verdict db i l v
  unfolding record_human_verdict
  outcome = ground arith

  -- A verdict on a link that is there is accepted: the link ends in the state that the verdict names,
  -- the result reports the state before and after, no case changes, and the journal gains one entry,
  -- for this link, unless the link was in that state already.
  pub record_human_verdict-applied :
      let (after, result) = record_human_verdict db i in
      (result.ok ≡ true)
      × (result.from_state ≡ some l.lifecycle_state)
      × (result.to_state ≡ some v)
      × (link_state after i.case_id i.article_id ≡ some v)
      × (after.cases ≡ db.cases)
      × (after.review_events ≡ (
          if lifecycle_eq l.lifecycle_state v
          then db.review_events
          else new_review_event db (verdict_event i l v) ∷ db.review_events))
  unfolding apply_verdict append_review_event update_case_article_lifecycle_state
  record_human_verdict-applied = elim (Bool-cases (lifecycle_eq l.lifecycle_state v)) [
    | inl same ↦
        rw (outcome, same, apply_verdict)
          (refl, refl, cc (same_state l.lifecycle_state v same), ground arith, refl, refl)
    | inr new ↦
        rw (outcome, new, apply_verdict)
          (
            refl,
            refl,
            refl,
            ground (arith, find_case_article-update db l.id i.case_id i.article_id v),
            refl,
            refl,
          )
  ]

  -- No other link changes.
  pub record_human_verdict_others :
      (c a : ℕ) (m : CaseArticle)
      → find_case_article db c a ≡ some m
      → m.id ≢ l.id
      → find_case_article (record_human_verdict db i).0 c a ≡ some m
  unfolding apply_verdict append_review_event
  record_human_verdict_others c a m there other =
      rw outcome (ground (arith, find_case_article-update db l.id c a v))

-- A verdict whose text names no verdict, whose case is not there or whose article is not linked to the
-- case is refused, and nothing is written.
pub record_human_verdict_refused :
    (db : Db) (i : VerdictInput)
    → (parse_human_verdict i.verdict ≡ none)
      ⊎ (find_case_by_id db i.case_id ≡ none)
      ⊎ (find_case_article db i.case_id i.article_id ≡ none)
    → let (after, result) = record_human_verdict db i in (result.ok ≡ false) × (after ≡ db)
unfolding record_human_verdict
record_human_verdict_refused db i why = ground arith
