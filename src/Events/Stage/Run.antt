-- ===== src/Events/Stage/Run.antt =====
-- The whole run of src/pipeline/event-stage.ts, and what it leaves of its candidates.
use ai_event_intelligence_ag.Base.{
  if◌then◌else◌, Bool-cases, inl, inr, ℕ, ◌≡◌, refl, sym, subst, String, Bool, true, false, List,
  [], ◌∷◌, arith, str_eq, length, keep, All, eq_iff,
}
use ai_event_intelligence_ag.Base.Table.{All-mono, All-find_by}
use ai_event_intelligence_ag.Base.Sort.{
  sort, All-keep, All-take, All-sort, All-keep_passing, All-zip,
}
use ai_event_intelligence_ag.Events.Records.{Article, EventDb, Outcome, returned, article_key}
use ai_event_intelligence_ag.Events.Queues.{list_by_processing_status, queued_before}
use ai_event_intelligence_ag.Events.Links.{has_article}
use ai_event_intelligence_ag.Events.Consistency.{IsConsistent}
use ai_event_intelligence_ag.Events.Stage.{
  Grouping, StageState, group_article, group_articles, nothing_grouped, run_event_stage,
}
use ai_event_intelligence_ag.Events.Stage.Turn.{is_tallied}
use ai_event_intelligence_ag.Events.Stage.Settled.{is_settled, group_article-IsRun, IsRun}

-- A candidate exists and is no duplicate.
abbrev IsCandidate : EventDb → Article → Type 0
IsCandidate db a = (has_article db a.id ≡ true) × (str_eq a.processing_status "DUPLICATE" ≡ false)

group_articles_nil : (g : Grouping) (s : StageState) → group_articles g [] s ≡ (s, returned tt)
unfolding group_articles
group_articles_nil g s = refl

group_articles_cons :
    (g : Grouping) (article : Article) (rest : List Article) (s : StageState)
    → str_eq article.processing_status "DUPLICATE" ≡ false
    → (group_article g article s).1 ≡ returned tt
    → group_articles g (article ∷ rest) s ≡ group_articles g rest (group_article g article s).0
unfolding group_articles
group_articles_cons g article rest s fresh quiet = rw (fresh, group_articles) rw (quiet) refl

group_articles-IsRun :
    (g : Grouping) (candidates : List Article) (s : StageState)
    → IsConsistent s.db
    → All (IsCandidate s.db) candidates
    → let (after, outcome) = group_articles g candidates s in
      IsRun s after outcome (length candidates)
      × All (λ a. is_settled after.db a.id ≡ true) candidates
group_articles-IsRun g [] s c all =
    subst (λ (p : StageState × Outcome Unit). IsRun s p.0 p.1 0 × Unit)
      (sym (group_articles_nil g s))
      (
        record {
          quiet = refl;
          consistent = c;
          articles = λ b. refl;
          settled = λ b h. h;
          attached = omega arith;
          tallied = λ h. h;
        },
        tt,
      )
group_articles-IsRun g (article ∷ rest) s c all =
    let (turn, settled) = group_article-IsRun g article s c all.0.0 in
    let next = (group_article g article s).0 in
    let (run, others) = group_articles-IsRun g rest next turn.consistent (
      All-mono (IsCandidate s.db) (IsCandidate next.db) rest
        (λ b h. (ground (arith, turn.articles b.id, h.0), h.1)) all.1) in
    subst
      (λ (p : StageState × Outcome Unit).
        IsRun s p.0 p.1 (length (article ∷ rest))
        × All (λ (a : Article). is_settled p.0.db a.id ≡ true) (article ∷ rest))
      (sym (group_articles_cons g article rest s all.0.1 turn.quiet))
      (
        record {
          quiet = run.quiet;
          consistent = run.consistent;
          articles = λ b. ground (arith, run.articles b, turn.articles b);
          settled = λ b h. run.settled b (turn.settled b h);
          attached = ground (arith, run.attached, turn.attached);
          tallied = λ h. run.tallied (turn.tallied h);
        },
        (run.settled article.id settled, others),
      )

embedded_is_no_duplicate : (s : String) → str_eq s "EMBEDDED" ≡ true → str_eq s "DUPLICATE" ≡ false
embedded_is_no_duplicate s h = rw ((eq_iff s "EMBEDDED").0 h) refl

candidates_of :
    (db : EventDb) (limit : ℕ)
    → All (IsCandidate db) (list_by_processing_status db "EMBEDDED" limit)
unfolding list_by_processing_status
candidates_of db limit =
    let test : Article → Bool = λ (a : Article). str_eq a.processing_status "EMBEDDED" in
    All-take (IsCandidate db) limit (sort queued_before (keep test db.articles)) (
      All-sort (IsCandidate db) queued_before (keep test db.articles) (
        All-zip (λ a. has_article db a.id ≡ true)
          (λ (a : Article). str_eq a.processing_status "DUPLICATE" ≡ false) (keep test db.articles)
          (All-keep (λ a. has_article db a.id ≡ true) test db.articles
            (All-find_by article_key db.articles))
          (All-mono (λ a. test a ≡ true) (λ a. str_eq a.processing_status "DUPLICATE" ≡ false)
            (keep test db.articles) (λ a h. embedded_is_no_duplicate a.processing_status h)
            (All-keep_passing test db.articles))))

pub run_event_stage-IsConsistent :
    (g : Grouping) (db : EventDb) (limit : ℕ)
    → IsConsistent db
    → IsConsistent (run_event_stage g db limit).0.db
unfolding run_event_stage
run_event_stage-IsConsistent g db limit c =
    let candidates = list_by_processing_status db "EMBEDDED" limit in
    (group_articles-IsRun g candidates
      (record { db = db; audits = []; result = nothing_grouped (length candidates) }) c
      (candidates_of db limit)).0.consistent

-- For tables that are consistent, the stage throws no error and leaves them consistent; each of its
-- candidates then belongs to an event and is marked as grouped, as is every article that was so before;
-- and the number of attachments is the number of candidates, and the sum of the events created and of the
-- attachments by key, by embedding and by the language model.
pub run_event_stage-is_settled :
    (g : Grouping) (db : EventDb) (limit b : ℕ)
    → IsConsistent db
    → let (after, outcome) = run_event_stage g db limit in
      let candidates = list_by_processing_status db "EMBEDDED" limit in
      (outcome ≡ returned tt)
      × IsConsistent after.db
      × All (λ a. is_settled after.db a.id ≡ true) candidates
      × ((if is_settled db b then is_settled after.db b else true) ≡ true)
      × (after.result.attached ≡ length candidates)
      × (is_tallied after.result ≡ true)
unfolding run_event_stage
run_event_stage-is_settled g db limit b c =
    let candidates = list_by_processing_status db "EMBEDDED" limit in
    let s : StageState = record {
      db = db;
      audits = [];
      result = nothing_grouped (length candidates);
    } in
    let (run, settled) = group_articles-IsRun g candidates s c (candidates_of db limit) in
    let after = (group_articles g candidates s).0 in
    let kept : (if is_settled db b then is_settled after.db b else true) ≡ true =
      elim (Bool-cases (is_settled db b)) [
        | inl before ↦ rw before (run.settled b before)
        | inr unsettled ↦ rw unsettled refl
      ] in
    (run.quiet, run.consistent, settled, kept, ground (arith, run.attached), run.tallied refl)
