-- ===== src/Cve/Consolidation/Cases.antt =====
-- What `consolidateArticleCveEvidence` of src/cve/cases.ts leaves the links at, as a whole.
use ai_event_intelligence_ag.Base.{
  ℕ, ◌≡◌, refl, String, Option, some, List, [], ◌∷◌, map, arith, inl, inr, Option-cases,
  if◌then◌else◌,
}
use ai_event_intelligence_ag.Cve.Records.{mentioned}
use ai_event_intelligence_ag.Cve.Store.{Db, ensure_case}
use ai_event_intelligence_ag.Cve.Review.Verdict.{link_state}
use ai_event_intelligence_ag.Cve.Consolidation.{
  Evidence, first_seen_article, distinct, ensure_cases, attach_articles,
  consolidate_article_cve_evidence, ConsolidatedResult,
}
use ai_event_intelligence_ag.Cve.Consolidation.Links.{
  attaches, AllMentioned, link_state-attach_articles,
}

pub links-ensure_case :
    (db : Db) (cve_id : String) (article : Option ℕ)
    → let after = (ensure_case db cve_id article).0 in
      (after.case_articles ≡ db.case_articles) × (after.articles ≡ db.articles)
unfolding ensure_case
links-ensure_case db cve_id article = ground arith

pub links-ensure_cases :
    (db : Db) (evidence : List Evidence) (ids : List String)
    → let after = (ensure_cases db evidence ids).0 in
      (after.case_articles ≡ db.case_articles) × (after.articles ≡ db.articles)
unfolding ensure_cases
links-ensure_cases db evidence [] = (refl, refl)
links-ensure_cases db evidence (cve_id ∷ rest) =
    let article = first_seen_article evidence cve_id in
    ground (
      arith,
      links-ensure_case db cve_id article,
      links-ensure_cases (ensure_case db cve_id article).0 evidence rest,
    )

-- Consolidation of `mentioned` evidence, where it returns: a pair of a case and an article that the
-- evidence names ends as `mentioned`, whatever verdict it had; the link of any other pair has the state
-- that it had.
pub consolidate-link_state :
    (db : Db) (evidence : List Evidence) (result : ConsolidatedResult) (c a : ℕ)
    → AllMentioned evidence
    → (consolidate_article_cve_evidence db evidence).1 ≡ some result
    → link_state (consolidate_article_cve_evidence db evidence).0 c a
      ≡ (if attaches result.cases evidence c a then some mentioned else link_state db c a)
unfolding consolidate_article_cve_evidence
consolidate-link_state db evidence result c a all returned =
    let ids = distinct (map (λ (e : Evidence). e.cve_id) evidence) in
    let ready = (ensure_cases db evidence ids).0 in
    elim (Option-cases (ensure_cases db evidence ids).1) [
      | inl thrown ↦ absurd (ground arith)
      | inr (ensured, made) ↦ elim (Option-cases (attach_articles ready ensured evidence).1) [
        | inl thrown ↦ absurd (ground arith)
        | inr (n, attached) ↦ ground (
          arith,
          links-ensure_cases db evidence ids,
          link_state-attach_articles ready ensured evidence c a all,
        )
      ]
    ]
