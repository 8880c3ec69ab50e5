-- ===== src/Cve/Consolidation/Again.antt =====
-- When `consolidateArticleCveEvidence` of src/cve/cases.ts returns, and what it does to the cases when it runs
-- on the same evidence again.
use ai_event_intelligence_ag.Base.{
  ℕ, ◌≡◌, refl, sym, ◌∙◌, String, true, Option, some, List, [], ◌∷◌, arith, inl, inr, Option-cases,
  is_some,
}
use ai_event_intelligence_ag.Cve.Records.{CveCase}
use ai_event_intelligence_ag.Cve.Store.{Db, ensure_case, references_article, upsert_case_article}
use ai_event_intelligence_ag.Cve.Consolidation.{
  Evidence, first_seen_article, ensure_cases, attach_article, attach_articles,
  consolidate_article_cve_evidence,
}
use ai_event_intelligence_ag.Cve.Consolidation.Known.{
  cve_ids, ensure_cases-IsKnown, evidence-IsKnown,
}
use ai_event_intelligence_ag.Cve.Consolidation.Attached.{
  AllThere, AllThere-of_articles, articles-attach_articles, AllThere-attached, attached-AllThere,
}
use ai_event_intelligence_ag.Cve.Consolidation.Cases.{links-ensure_case, links-ensure_cases}
use ai_event_intelligence_ag.Cve.Consolidation.Kept.{
  HasCase-of_same, ensure_cases_made, ensure_cases_there,
}

cases-attach_article :
    (db : Db) (ensured : List CveCase) (e : Evidence)
    → (attach_article db ensured e).0.cases ≡ db.cases
unfolding attach_article upsert_case_article
cases-attach_article db ensured e = ground arith

cases-attach_articles :
    (db : Db) (ensured : List CveCase) (evidence : List Evidence)
    → (attach_articles db ensured evidence).0.cases ≡ db.cases
unfolding attach_articles
cases-attach_articles db ensured [] = refl
cases-attach_articles db ensured (e ∷ rest) =
    let next = (attach_article db ensured e).0 in
    ground (arith, cases-attach_article db ensured e, cases-attach_articles next ensured rest)

-- Attaching articles changes no case.
cases-consolidate :
    (db : Db) (evidence : List Evidence)
    → (consolidate_article_cve_evidence db evidence).0.cases
      ≡ (ensure_cases db evidence (cve_ids evidence)).0.cases
unfolding consolidate_article_cve_evidence
cases-consolidate db evidence =
    let ready = (ensure_cases db evidence (cve_ids evidence)).0 in
    elim (Option-cases (ensure_cases db evidence (cve_ids evidence)).1) [
      | inl thrown ↦ ground arith
      | inr (ensured, made) ↦ ground (arith, cases-attach_articles ready ensured evidence)
    ]

-- Consolidation returns exactly where the cases are ensured and the articles attached.
consolidate_parts :
    (db : Db) (evidence : List Evidence)
    → is_some (consolidate_article_cve_evidence db evidence).1 ≡ true
    → (ensured : List CveCase) × ((ensure_cases db evidence (cve_ids evidence)).1 ≡ some ensured)
      × (is_some
            (attach_articles (ensure_cases db evidence (cve_ids evidence)).0 ensured evidence).1
          ≡ true)
unfolding consolidate_article_cve_evidence
consolidate_parts db evidence returned =
    let ready = (ensure_cases db evidence (cve_ids evidence)).0 in
    elim (Option-cases (ensure_cases db evidence (cve_ids evidence)).1) [
      | inl thrown ↦ absurd (ground arith)
      | inr (ensured, made) ↦ elim (Option-cases (attach_articles ready ensured evidence).1) [
        | inl thrown ↦ absurd (ground arith)
        | inr (n, attached) ↦ (ensured, made, rw attached refl)
      ]
    ]

consolidate_returns :
    (db : Db) (evidence : List Evidence) (ensured : List CveCase)
    → (ensure_cases db evidence (cve_ids evidence)).1 ≡ some ensured
    → is_some (attach_articles (ensure_cases db evidence (cve_ids evidence)).0 ensured evidence).1
      ≡ true
    → is_some (consolidate_article_cve_evidence db evidence).1 ≡ true
unfolding consolidate_article_cve_evidence
consolidate_returns db evidence ensured made attached =
    let ready = (ensure_cases db evidence (cve_ids evidence)).0 in
    elim (Option-cases (attach_articles ready ensured evidence).1) [
      | inl thrown ↦ absurd (ground arith)
      | inr (n, done) ↦ ground arith
    ]

articles-consolidate :
    (db : Db) (evidence : List Evidence)
    → (consolidate_article_cve_evidence db evidence).0.articles ≡ db.articles
unfolding consolidate_article_cve_evidence
articles-consolidate db evidence =
    let ready = (ensure_cases db evidence (cve_ids evidence)).0 in
    elim (Option-cases (ensure_cases db evidence (cve_ids evidence)).1) [
      | inl thrown ↦ ground (arith, links-ensure_cases db evidence (cve_ids evidence))
      | inr (ensured, made) ↦ ground (
        arith,
        links-ensure_cases db evidence (cve_ids evidence),
        articles-attach_articles ready ensured evidence,
      )
    ]

consolidate_again :
    (db : Db) (evidence : List Evidence)
    → is_some (consolidate_article_cve_evidence db evidence).1 ≡ true
    → let after = (consolidate_article_cve_evidence db evidence).0 in
      let again = consolidate_article_cve_evidence after evidence in
      (again.0.cases ≡ after.cases) × (is_some again.1 ≡ true)
consolidate_again db evidence returned =
    let after = (consolidate_article_cve_evidence db evidence).0 in
    let ids = cve_ids evidence in
    let ready = (ensure_cases db evidence ids).0 in
    let (ensured, made, attached) = consolidate_parts db evidence returned in
    let there =
      HasCase-of_same ready after ids (cases-consolidate db evidence)
        (ensure_cases_made db evidence ids ensured made) in
    let (same, fine) = ensure_cases_there after evidence ids there in
    let articles =
      AllThere-of_articles ready (ensure_cases after evidence ids).0 evidence
        ((links-ensure_cases after evidence ids).1
          ∙ articles-consolidate db evidence
          ∙ sym (links-ensure_cases db evidence ids).1)
        (attached-AllThere ready ensured evidence
          (evidence-IsKnown evidence ensured (ensure_cases-IsKnown db evidence ids ensured made))
          attached) in
    elim (Option-cases (ensure_cases after evidence ids).1) [
      | inl thrown ↦ absurd (ground arith)
      | inr (again, found) ↦ (
        cases-consolidate after evidence ∙ same,
        consolidate_returns after evidence again found
            (AllThere-attached (ensure_cases after evidence ids).0 again evidence articles),
      )
    ]

ensure_case_returns :
    (db : Db) (cve_id : String) (article : Option ℕ)
    → references_article db article ≡ true
    → is_some (ensure_case db cve_id article).1 ≡ true
unfolding ensure_case
ensure_case_returns db cve_id article there = ground (arith, there)

first_seen_article_there :
    (db : Db) (evidence : List Evidence) (cve_id : String)
    → AllThere db evidence
    → references_article db (first_seen_article evidence cve_id) ≡ true
first_seen_article_there db [] cve_id all = refl
first_seen_article_there db (e ∷ rest) cve_id all =
    ground (arith, all.0, first_seen_article_there db rest cve_id all.1)

ensure_cases_return :
    (db : Db) (evidence : List Evidence) (ids : List String)
    → AllThere db evidence
    → is_some (ensure_cases db evidence ids).1 ≡ true
unfolding ensure_cases
ensure_cases_return db evidence [] all = refl
ensure_cases_return db evidence (cve_id ∷ rest) all =
    let article = first_seen_article evidence cve_id in
    let next = (ensure_case db cve_id article).0 in
    let same = (links-ensure_case db cve_id article).1 in
    let made =
      ensure_case_returns db cve_id article (first_seen_article_there db evidence cve_id all) in
    ground (
      arith,
      made,
      ensure_cases_return next evidence rest (AllThere-of_articles db next evidence same all),
    )

-- Where the articles of all evidence are there, consolidation returns; and consolidating the same evidence
-- once more returns too, and inserts no case and changes none.
pub consolidate_idempotent :
    (db : Db) (evidence : List Evidence)
    → AllThere db evidence
    → let first = consolidate_article_cve_evidence db evidence in
      let again = consolidate_article_cve_evidence first.0 evidence in
      (is_some first.1 ≡ true) × (again.0.cases ≡ first.0.cases) × (is_some again.1 ≡ true)
consolidate_idempotent db evidence all =
    let ids = cve_ids evidence in
    let ready = (ensure_cases db evidence ids).0 in
    let made = ensure_cases_return db evidence ids all in
    let there = AllThere-of_articles db ready evidence (links-ensure_cases db evidence ids).1 all in
    elim (Option-cases (ensure_cases db evidence ids).1) [
      | inl thrown ↦ absurd (ground arith)
      | inr (ensured, found) ↦
          let returned =
            consolidate_returns db evidence ensured found
              (AllThere-attached ready ensured evidence there) in
          let (same, again) = consolidate_again db evidence returned in (returned, same, again)
    ]
